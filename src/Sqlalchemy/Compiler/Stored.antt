-- ===== src/Sqlalchemy/Compiler/Stored.antt =====
-- From the statements of an application to the object that the server stores.
use crate_python.Exec.{ok}
use crate_python.Json.{Json}
use crate_python.Prelude.Dict.{Dict, NodupKeys, lookup}
use crate_python.Prelude.{some, Text, List, ◌≡◌, if◌then◌else◌}
use crate_python.Sqlalchemy.Types.{Operation, operate_all, make_dict, MutableDict, member}
use crate_python.Sqlalchemy.Types.Tracks.{operate_all-Tracks}
use crate_python.Sqlalchemy.Compiler.{partial_items}
use crate_python.Sqlalchemy.Compiler.Partial.{partial_items_lem, apply_all}

-- An object column holds `old`, of which no key stands twice. An application changes the dictionary
-- that was loaded, by assignments of plain JSON values to keys and deletions of keys, in any order, at
-- the root or in the dictionaries inside it, none of which raises. The assignments of the partial
-- update, one after the other, then leave in the stored object each deleted key null and every other
-- key as the application's dictionary has it.
pub operate_all-partial_items :
    (j : Text) (old : Dict Json) (ops : List Operation) (d : MutableDict)
    → NodupKeys old
    → operate_all ops (make_dict old) ≡ ok d
    → lookup j (apply_all (partial_items d) old)
      ≡ (if member j d.deleted_keys then some Json.null else lookup j d.items)
operate_all-partial_items j old ops d n e =
    partial_items_lem j old d (operate_all-Tracks old ops d n e)
