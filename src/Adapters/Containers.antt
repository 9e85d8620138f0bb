-- ===== src/Adapters/Containers.antt =====
-- packages/adapters/src/common/containers.ts: the nodes of accounts and regions, made when they are
-- first asked for.
use kumomiru.Prelude.{String, ◌+ₛ◌, none, some, List, [], if◌then◌else◌}
use kumomiru.JsMap
use kumomiru.Graph.Schema.{CloudNode}

abbrev pub Nodes : Type 0
Nodes = List (String × CloudNode)

abbrev pub account_id : String → String
account_id account = "aws::account::" +ₛ account

abbrev pub region_id : String → String → String
region_id account region = "aws::region::" +ₛ account +ₛ "::" +ₛ region

abbrev pub account_node : String → CloudNode
account_node account = record {
  id = account_id account;
  type = "aws::account";
  name = account;
  account = account;
  region = none;
  parent = none;
  tags = [];
  attributes = [];
}

abbrev pub region_node : String → String → CloudNode
region_node account region = record {
  id = region_id account region;
  type = "aws::region";
  name = region;
  account = account;
  region = some region;
  parent = some (account_id account);
  tags = [];
  attributes = [];
}

unfoldable pub add_account : String → Nodes → String × Nodes
unfolding JsMap.has JsMap.set
add_account account nodes =
    let id = account_id account in
    (id, if JsMap.has id nodes then nodes else JsMap.set id (account_node account) nodes)

-- The node of the account is made before that of the region is entered.
unfoldable pub add_region : String → String → Nodes → String × Nodes
unfolding add_account
add_region account region nodes =
    let id = region_id account region in
    (
      id,
      if JsMap.has id nodes
          then nodes
          else JsMap.set id (region_node account region) (add_account account nodes).1,
    )
