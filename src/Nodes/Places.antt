-- ===== src/Nodes/Places.antt =====
-- Where a node stands: the full path of a node, and the folder path and name in a full path, as
-- packages/kb-server/src/services/file-manager/helpers.ts (`buildNodePath`) and the callers of
-- `split('/').pop()` and `lastIndexOf('/')` compute them.
use evukb.Common.{[], ◌∷◌, ◌++◌, ◌≡◌, refl, false, if◌then◌else◌, Option, none, some, arith}
use evukb.Common.Text.{Text, truthy, starts_with}
use evukb.Storage.Posix.{slash}
use evukb.AgentWrite.PathPolicy.{SplitPath, split_last}

unfoldable pub build_node_path : Text → Text → Text
build_node_path parent name = if truthy parent then parent ++ slash ∷ name else name

-- The name behind the last slash, and the path before it, which is empty if there is no slash.
unfoldable pub parent_place : Text → SplitPath
unfolding split_last
parent_place path = elim (split_last path) [
  | none ↦ record { folder_path = []; name = path }
  | some parts ↦ parts
]

split_last-join :
    (t : Text) (parts : SplitPath)
    → split_last t ≡ some parts
    → t ≡ parts.folder_path ++ slash ∷ parts.name
unfolding split_last
split_last-join [] parts e = cc
split_last-join (c ∷ t) parts e = go (split_last t) refl (split_last-join t)
  where
    go :
        (o : Option SplitPath)
        → split_last t ≡ o
        → ((found : SplitPath)
            → split_last t ≡ some found
            → t ≡ found.folder_path ++ slash ∷ found.name)
        → c ∷ t ≡ parts.folder_path ++ slash ∷ parts.name
    go none q ih = ground arith
    go (some found) q ih = ground (arith, ih found q)

parent_place-some :
    (t : Text) (parts : SplitPath)
    → split_last t ≡ some parts
    → (starts_with (slash ∷ []) t ≡ false)
    → build_node_path parts.folder_path parts.name ≡ t
unfolding build_node_path starts_with
parent_place-some t parts e h = go parts.folder_path refl
  where
    go : (d : Text) → parts.folder_path ≡ d → build_node_path parts.folder_path parts.name ≡ t
    go [] q = ground (arith, split_last-join t parts e)
    go (c ∷ d) q = ground (arith, split_last-join t parts e)

-- The place in a path that does not start with a slash has that path.
pub build_node_path-parent_place :
    (t : Text)
    → starts_with (slash ∷ []) t ≡ false
    → build_node_path (parent_place t).folder_path (parent_place t).name ≡ t
unfolding parent_place
build_node_path-parent_place t h = go (split_last t) refl
  where
    go :
        (o : Option SplitPath)
        → split_last t ≡ o
        → build_node_path (parent_place t).folder_path (parent_place t).name ≡ t
    go none q = rw (q, parent_place) (unfold build_node_path in refl)
    go (some parts) q = rw (q, parent_place) (parent_place-some t parts q h)
