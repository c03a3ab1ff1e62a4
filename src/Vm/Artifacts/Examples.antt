-- ===== src/Vm/Artifacts/Examples.antt =====
-- The theorem on the native artifacts at a concrete tree.
use claude_cowork_service.Base.{
  Bytes, Dict, [], codes, false, is_empty, none, ok, refl, true, ◌∷◌, ◌≡◌,
}
use claude_cowork_service.Rpc.Backend.{MountSpec}
use claude_cowork_service.Vm.Artifacts.{Tree, TreeCalls, clear_dir, sanitize_native_artifacts}
use claude_cowork_service.Vm.Artifacts.Spared.{
  ClearsMnt, IsSpared, sanitize_native_artifacts-IsSpared,
}
use claude_cowork_service.Vm.Examples.{no_links}

-- A mount that nests in another one: its link lies in the directory of that one.
abbrev nested_mounts : Dict MountSpec
nested_mounts =
    (codes "d", record { path = codes "h/d"; mode = codes "rw" })
    ∷ (codes "d/skills", record { path = codes "h/s"; mode = codes "rw" })
    ∷ []

abbrev some_tree : Tree
some_tree = (codes "/h/d/skills", true) ∷ (codes "/h/d/notes", false) ∷ []

abbrev tree_calls : TreeCalls
tree_calls = record { names_in = λ d t. none; remove_error = λ p. none }

sanitized_run :
    sanitize_native_artifacts tree_calls no_links
      (ok (codes "/h"))
      (codes "/h")
      (codes "s")
      nested_mounts
      some_tree
    ≡ (codes "/h/d/notes", false) ∷ []
unfolding sanitize_native_artifacts is_empty clear_dir
sanitized_run = refl

sanitize_native_artifacts-IsSpared_example :
    let t' : Tree =
      sanitize_native_artifacts tree_calls no_links
        (ok (codes "/h"))
        (codes "/h")
        (codes "s")
        nested_mounts
        some_tree in
    ((p : Bytes) → IsSpared some_tree t' p)
    × ClearsMnt tree_calls (codes "/h") (codes "s") some_tree t'
sanitize_native_artifacts-IsSpared_example =
    sanitize_native_artifacts-IsSpared tree_calls no_links (ok (codes "/h")) (codes "/h")
      (codes "s") nested_mounts some_tree
