-- ===== src/Controller/Watch.antt =====
-- isNodeReady, OwnNode and PredictNodeUpdate of node_controller.go: which nodes and which changes
-- of a node the node reconciler acts on.
use alibabacloud_erdma_contr.Prelude.{
  ◌≡◌, String, str_eq, Bool, true, false, not, ◌&&◌, ◌||◌, Option, none, some, List, [], ◌∷◌, all,
  if◌then◌else◌, arith,
}
use alibabacloud_erdma_contr.Kube.{Node, NodeCondition}

-- The status of the first condition of type Ready.
unfoldable pub is_ready : List NodeCondition → Bool
is_ready [] = false
is_ready (c ∷ cs) = if str_eq c.type "Ready" then str_eq c.status "True" else is_ready cs

unfoldable pub is_node_ready : Node → Bool
unfolding is_ready
is_node_ready node = is_ready node.conditions

-- `labels[k]`, blank where there is none.
unfoldable pub label : List (String × String) → String → String
label [] k = ""
label ((j, v) ∷ ls) k = if str_eq j k then v else label ls k

-- The selector of the configuration, in any order of its entries.
unfoldable pub own_node : List (String × String) → Option Node → Bool
own_node selector none = false
own_node selector (some node) = all (λ s. str_eq (label node.labels s.0) s.1) selector

abbrev pub is_deleting : Node → Bool
is_deleting node = elim node.deletion_timestamp [ none ↦ false | some t ↦ true ]

unfoldable pub predict_node_update : List (String × String) → Node → Node → Bool
predict_node_update selector old new =
    if not (own_node selector (some new))
    then false
    else if not (own_node selector (some old)) && own_node selector (some new)
    then true
    else if is_deleting new
    then true
    else if not (is_node_ready old) && is_node_ready new
    then true
    else not (str_eq old.provider_id new.provider_id)

-- An update of a node is acted on exactly if the new node is owned and one of four holds: the old
-- node was not owned, the new one is being deleted, it has become ready, or its provider id is
-- another.
predict_node_update_iff :
    (selector : List (String × String)) (old new : Node)
    → predict_node_update selector old new ≡ (
        own_node selector (some new)
        && (not (own_node selector (some old))
            || is_deleting new
            || (not (is_node_ready old) && is_node_ready new)
            || not (str_eq old.provider_id new.provider_id)))
unfolding predict_node_update
predict_node_update_iff selector old new = ground arith
