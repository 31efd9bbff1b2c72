-- ===== src/Store/Opening.antt =====
-- crates/jobstore/src/lib.rs: how a store is opened. SQLite's own part is an argument: the database
-- at a path, `none` where there was none, or the error.
use multinode_controller.Base.{Option, none, some, Result, ok, try}
use multinode_controller.Protocol.{FilePath}
use multinode_controller.Store.Tables.{JobStore, empty_store}

-- `init`: the tables are made where there are none.
unfoldable pub init : Option JobStore → JobStore
init none = empty_store
init (some store) = store

unfoldable pub make_parent :
    (create_dir_all : FilePath → Result (Unit {0})) → Option FilePath → Result (Unit {0})
make_parent create_dir_all none = ok tt
make_parent create_dir_all (some dir) = create_dir_all dir

unfoldable pub open_store :
    (parent : FilePath → Option FilePath) (create_dir_all : FilePath → Result (Unit {0}))
    (open_database : FilePath → Result (Option JobStore))
    → FilePath
    → Result JobStore
open_store parent create_dir_all open_database path =
    try (make_parent create_dir_all (parent path))
      λ made. try (open_database path) λ database. ok (init database)

unfoldable pub in_memory : JobStore
in_memory = init none
