-- ===== src/Kubernetes.antt =====
-- px-oci-mon/utils/kubernetes.go: the labels of the node, and draining its pods.
pub mod Labels
use px_installer.Base.{
  Bool, true, false, not, ◌||◌, ◌&&◌, Option, none, some, List, [], ◌∷◌, ◌++◌, if◌then◌else◌, Bytes,
  lit, str_eq, to_lower, any, ℕ, length, ltb, ◌==◌,
}
use px_installer.Base.Result.{Result, ok, err}
use px_installer.World.{
  Error, Event, Env, Node, Pod, World, get_pods, drain, add_label, remove_label, cordon, uncordon,
  find_my_node,
}
use px_installer.World.Monad.{M, pure, ◌>>=◌, ◌>>◌, ask}

abbrev pub enablement_key : Bytes
enablement_key = lit "px/enabled"

abbrev pub service_key : Bytes
service_key = lit "px/service"

-- `disabledLabels`: the keyword for the Kubernetes uninstall, and the others.
abbrev pub label_false : Bytes
label_false = lit "false"

abbrev pub uninstall_labels : List Bytes
uninstall_labels = lit "uninstall" ∷ lit "remove" ∷ lit "rm" ∷ []

abbrev pub disabled_labels : List Bytes
disabled_labels = label_false ∷ uninstall_labels

-- `needle == stack[i]` for some `i`.
unfoldable pub in_array : Bytes → List Bytes → Bool
in_array needle [] = false
in_array needle (x ∷ stack) = str_eq needle x || in_array needle stack

-- `m[k]` on a map from strings to strings.
unfoldable pub lookup : Bytes → List (Bytes × Bytes) → Option Bytes
lookup k [] = none
lookup k ((j, v) ∷ m) = if str_eq j k then some v else lookup k m

abbrev pub listed : List Bytes → Option Bytes → Bool
listed labels none = false
listed labels (some lb) = in_array (to_lower lb) labels

unfoldable pub is_px_disabled : Node → Bool
is_px_disabled n = listed disabled_labels (lookup enablement_key n.labels)

unfoldable pub is_uninstall_requested : Node → Bool
is_uninstall_requested n = listed uninstall_labels (lookup enablement_key n.labels)

-- "" if there is no such label.
abbrev pub lower_or_empty : Option Bytes → Bytes
lower_or_empty none = []
lower_or_empty (some lb) = to_lower lb

unfoldable pub get_service_request : Node → Bytes
get_service_request n = lower_or_empty (lookup service_key n.labels)

-- The managed pods, in order.
unfoldable pub filter_managed : (Pod → Bool) → List Pod → List Pod
filter_managed p [] = []
filter_managed p (x ∷ xs) = let rest = filter_managed p xs in if p x then x ∷ rest else rest

-- The pods that `DrainPxVolumeConsumerPods` drains, of those that it found.
unfoldable pub chosen_pods : (Pod → Bool) → Bool → List Pod → List Pod
unfolding filter_managed
chosen_pods p drain_all found =
    if not drain_all && ltb 0 (length found)
    then (let managed = filter_managed p found in
        if length found == length managed then found else managed)
    else found

module _ (env : Env) where
  unfoldable pub disable_px : Node → M Error
  disable_px n = ask (add_label n.node_name enablement_key label_false) env.labelled

  unfoldable pub remove_service_label : Node → M Error
  remove_service_label n = ask (remove_label n.node_name service_key) env.labelled

  abbrev drain_error : Error → Error
  drain_error none = none
  drain_error (some message) = some (lit "Failed to drain pods: " ++ message)

  unfoldable pub drain_chosen : Node → List Pod → M Error
  drain_chosen n [] = pure none
  drain_chosen n (p ∷ pods) = do
    e ← ask (drain n.node_name (p ∷ pods)) (λ events. env.drained events n.node_name (p ∷ pods))
    pure (drain_error e)

  abbrev pub drain_found : Node → Bool → Result Bytes (List Pod) → M Error
  drain_found n drain_all (err message) =
      pure (some (lit "Failed to get PX consumer pods: " ++ message))
  drain_found n drain_all (ok found) = drain_chosen n (chosen_pods env.is_managed drain_all found)

  unfoldable pub drain_px_volume_consumer_pods : Node → Bool → M Error
  unfolding drain_chosen chosen_pods
  drain_px_volume_consumer_pods n drain_all = do
    found ← ask (get_pods n.node_name) (λ events. env.pods events n.node_name)
    drain_found n drain_all found

  unfoldable pub find_node : M (Result Bytes (Option Node))
  find_node = ask find_my_node env.my_node

  unfoldable pub cordon_node : Node → M Error
  cordon_node n = ask (cordon n.node_name) env.labelled

  unfoldable pub uncordon_node : Node → M Error
  uncordon_node n = ask (uncordon n.node_name) env.labelled
