-- ===== src/Cache/Memory/Pending.antt =====
-- What is pending in the in-memory cache after StoreCommand.
use castle_ops_client.Prelude.{
  String, ◌≡◌, subst, inl, inr, Bool, true, false, List, [], ◌∷◌, Perm, str_eq, eq_iff, Bool-cases,
  filter, keep_if, ◌&&◌, not,
}
use castle_ops_client.Prelude.Assoc.{Assoc, insert, values}
use castle_ops_client.Cache.Types.{Command}
use castle_ops_client.Cache.Memory.{
  MemoryCache, store_command, get_pending_commands, is_pending, bump,
}
use castle_ops_client.Cache.Memory.Commands.{
  Absent, IsKeyed, Visits, is_other_pending, pending_other, get_pending_commands_lem,
}
use mathlib.Core.List.Perm

dropped :
    (b : Bool) (c d : Command) (l : List Command) → Perm (c ∷ l) (c ∷ keep_if (b && not true) d l)
dropped true c d l = Perm.refl _
dropped false c d l = Perm.refl _

beside :
    (b : Bool) (c d : Command) (l l' : List Command)
    → Perm l (c ∷ l')
    → Perm (keep_if b d l) (c ∷ keep_if (b && not false) d l')
beside true c d l l' h = Perm.trans (Perm.cons d h) (Perm.swap c d l')
beside false c d l l' h = h

pending-insert :
    (k : String) (c : Command) (m : Assoc Command)
    → IsKeyed m
    → is_pending c ≡ true
    → Perm (filter is_pending (values (insert k c m))) (c ∷ filter (is_other_pending k) (values m))
unfolding insert
pending-insert k c [] v h = rw h (Perm.refl _)
pending-insert k c ((i, d) ∷ m) (own, apart, rest) h = elim (Bool-cases (str_eq i k)) [
  | inl same ↦
      let gone = pending_other k m rest (subst (λ j. Absent j m) ((eq_iff i k).0 same) apart) in
      let replaced : str_eq d.command_id k ≡ true = subst (λ j. str_eq j k ≡ true) own same in
      rw (same, h, replaced, gone) (dropped (is_pending d) c d _)
  | inr other ↦
      let kept : str_eq d.command_id k ≡ false = subst (λ j. str_eq j k ≡ false) own other in
      rw (other, kept) (beside (is_pending d) c d _ _ (pending-insert k c m rest h))
]

-- A new pending command takes the place of the one with its id, and the others stay.
pub pending-store_command :
    (range : Assoc Command → List Command) (c : Command) (m : MemoryCache)
    → Visits range
    → IsKeyed m.commands
    → c.id ≡ 0
    → is_pending c ≡ true
    → Perm (get_pending_commands range (store_command c m)) (
        record c { id = bump m.next_id }
        ∷ filter (is_other_pending c.command_id) (values m.commands))
unfolding store_command
pending-store_command range c m visits keyed new h =
    Perm.trans (get_pending_commands_lem range (store_command c m) visits).1 stored
  where
    stored : Perm (filter is_pending (values (store_command c m).commands)) (
        record c { id = bump m.next_id }
        ∷ filter (is_other_pending c.command_id) (values m.commands))
    stored =
        simp new (pending-insert c.command_id (record c { id = bump m.next_id }) m.commands keyed h)
