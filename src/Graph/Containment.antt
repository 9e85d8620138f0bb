-- ===== src/Graph/Containment.antt =====
-- packages/graph/src/containment.ts: the node types that are containers.
use kumomiru.Prelude.{String, Bool, List, [], ◌∷◌}
use kumomiru.JsSet

abbrev pub container_types : List String
container_types = "aws::account" ∷ "aws::region" ∷ "aws::ec2::vpc" ∷ "aws::ec2::subnet" ∷ []

unfoldable pub is_container : String → Bool
is_container type = JsSet.has type container_types
