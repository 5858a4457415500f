-- ===== src/Sync/Membership/Active.antt =====
-- The devices that are active after the entries of a log.
use vbuff.Base.{◌≡◌, refl, List, [], ◌∷◌, ◌++◌, Bytes, bytes_ord}
use vbuff.Base.Maps.{IsAscending, map_insert-IsAscending}
use vbuff.Base.Maps.Remove.{map_remove-IsAscending}
use vbuff.Sync.Sealing.{SealOps}
use vbuff.Sync.Chain.{ChainLink, replay}
use vbuff.Sync.Membership.{
  DeviceMember, MembershipAction, add, revoke, MembershipEntry, MembershipState, apply,
  apply_action, membership,
}

apply_action-IsAscending :
    (active : List (Bytes × DeviceMember)) (action : MembershipAction)
    → IsAscending active
    → IsAscending (apply_action active action)
unfolding apply_action
apply_action-IsAscending active (add member) a =
    map_insert-IsAscending member.device_id member active a
apply_action-IsAscending active (revoke device_id) a = map_remove-IsAscending device_id active a

module _ (seal : SealOps) where
  pub replay-IsAscending :
      (state : MembershipState) (links : List (ChainLink MembershipEntry))
      → IsAscending state.active
      → IsAscending (replay (membership seal) state links).active
  unfolding replay apply
  replay-IsAscending state [] a = a
  replay-IsAscending state (l ∷ links) a =
      replay-IsAscending (apply l.payload state) links
        (apply_action-IsAscending state.active l.payload.action a)

  pub replay-append :
      (state : MembershipState) (links : List (ChainLink MembershipEntry))
      (l : ChainLink MembershipEntry)
      → replay (membership seal) state (links ++ l ∷ [])
        ≡ apply l.payload (replay (membership seal) state links)
  unfolding replay
  replay-append state [] l = refl
  replay-append state (m ∷ links) l = replay-append (apply m.payload state) links l
