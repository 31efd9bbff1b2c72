-- ===== src/Base/Paths.antt =====
-- Paths as std::path joins them.
use mathlib.Core.Bool.{Bool, true}
use mathlib.Core.List.{[], ◌∷◌, ◌++◌}
use multinode_controller.Base.Tests.{◌==◌, if◌then◌else◌}
use multinode_controller.Base.Bytes.{Text}

unfoldable pub ends_with_slash : Text → Bool
ends_with_slash [] = true
ends_with_slash (c ∷ []) = c == 47
ends_with_slash (c ∷ d ∷ t) = ends_with_slash (d ∷ t)

-- `Path::join` with a relative path.
unfoldable pub join_path : Text → Text → Text
join_path dir name = if ends_with_slash dir then dir ++ name else dir ++ 47 ∷ name
