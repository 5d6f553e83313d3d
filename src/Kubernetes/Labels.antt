-- ===== src/Kubernetes/Labels.antt =====
-- The labels that disable Portworx, and which pods are drained.
use px_installer.Base.{
  ◌≤◌, Bool, true, false, Option, none, some, List, [], ◌∷◌, ◌≡◌, refl, arith, if◌then◌else◌, Bytes,
  lit, str_eq, to_lower, length,
}
use px_installer.World.{Node, Pod}
use px_installer.Kubernetes.{
  enablement_key, label_false, disabled_labels, in_array, lookup, listed, uninstall_labels,
  is_px_disabled, is_uninstall_requested, filter_managed, chosen_pods,
}

listed_false : in_array (to_lower label_false) disabled_labels ≡ true
unfolding in_array lit str_eq to_lower
listed_false = refl

uninstall-disabled :
    (lb : Option Bytes) → listed uninstall_labels lb ≡ true → listed disabled_labels lb ≡ true
unfolding in_array
uninstall-disabled none h = cc
uninstall-disabled (some lb) h = ground arith

-- A request to uninstall disables Portworx too; and once the label is reset to "false", as
-- `DisablePx` asks, Portworx is disabled and no uninstall is requested.
pub is_uninstall_requested-is_px_disabled :
    (n : Node)
    → (is_uninstall_requested n ≡ true → is_px_disabled n ≡ true)
      × (lookup enablement_key n.labels ≡ some label_false
          → (is_px_disabled n ≡ true) × (is_uninstall_requested n ≡ false))
unfolding is_px_disabled is_uninstall_requested in_array
is_uninstall_requested-is_px_disabled n = (
  uninstall-disabled (lookup enablement_key n.labels),
  λ e. unfold lit to_lower str_eq in rw e (refl, refl),
)

length-filter_managed : (p : Pod → Bool) (xs : List Pod) → length (filter_managed p xs) ≤ length xs
unfolding filter_managed
length-filter_managed p [] = omega arith
length-filter_managed p (x ∷ xs) = ground (arith, length-filter_managed p xs)

filter_managed_full :
    (p : Pod → Bool) (xs : List Pod)
    → length xs ≡ length (filter_managed p xs)
    → filter_managed p xs ≡ xs
unfolding filter_managed
filter_managed_full p [] e = refl
filter_managed_full p (x ∷ xs) e =
    ground (arith, length-filter_managed p xs, filter_managed_full p xs)

-- The shortcut for equal lengths changes nothing: all pods if all are to be drained, otherwise
-- exactly the managed ones, in order.
pub chosen_pods-filter_managed :
    (p : Pod → Bool) (drain_all : Bool) (found : List Pod)
    → chosen_pods p drain_all found ≡ (if drain_all then found else filter_managed p found)
unfolding chosen_pods
chosen_pods-filter_managed p true found = refl
chosen_pods-filter_managed p false [] = unfold filter_managed in refl
chosen_pods-filter_managed p false (x ∷ xs) = ground (arith, filter_managed_full p (x ∷ xs))
