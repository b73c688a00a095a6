-- ===== src/Proc/List/Tests.antt =====
-- The answer to a list request on two objects.
use yproxy.Base.{List, [], ◌∷◌, arith}
use yproxy.Bytes.{Bytes, ascii}
use yproxy.Message.ObjectMeta.{ObjectInfo}
use yproxy.Proc.Effect.{M, ok}
use yproxy.Proc.Garbage.Mgr.{Error}
use yproxy.Proc.Reply.Ready.{takes}
use yproxy.Proc.List.{read_listing}
use yproxy.Proc.List.Handler.{Told, process_list_extended, process_list_extended-read_listing}

abbrev objects : List ObjectInfo
objects =
    record { path = 97 ∷ 47 ∷ 98 ∷ []; size = 7; last_mod = 5 }
    ∷ record { path = 107 ∷ []; size = 0; last_mod = 9 }
    ∷ []

abbrev list_path : M Unit Error (List ObjectInfo)
list_path w = (ok objects, w)

abbrev error_text : Error → Bytes
error_text e = ascii "error"

process_list_extended-read_listing_example :
    Told error_text
      (ok objects)
      (process_list_extended error_text takes list_path [] tt).0
      (read_listing 3 (process_list_extended error_text takes list_path [] tt).1 [])
process_list_extended-read_listing_example =
    process_list_extended-read_listing error_text list_path 3 tt
      (ground arith, ground arith, omega arith)
