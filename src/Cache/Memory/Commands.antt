-- ===== src/Cache/Memory/Commands.antt =====
-- The commands of the in-memory cache: its map's invariant, and what is pending after each method.
use castle_ops_client.Prelude.{
  String, ◌≡◌, refl, sym, subst, inl, inr, Bool, false, none, some, List, [], ◌∷◌, Perm, arith,
  str_eq, eq_iff, Bool-cases, Option-cases, All, filter, ◌&&◌, not,
}
use castle_ops_client.Prelude.Assoc.{Assoc, lookup, insert, values}
use castle_ops_client.Prelude.Perms.{filter-perm}
use castle_ops_client.Cache.Types.{Time, Command}
use castle_ops_client.Cache.Sort.{IsSorted}
use castle_ops_client.Cache.Sort.Order.{sort_pending-perm, sort_pending-IsSorted}
use castle_ops_client.Cache.Memory.{
  MemoryCache, store_command, mark_command_complete, get_pending_commands, is_pending, completed,
  bump,
}
use mathlib.Core.List.Perm

-- No entry of the map has the key `k`.
abbrev pub Absent : String → Assoc Command → Type 0
Absent k = All (λ e. str_eq e.0 k ≡ false)

-- Each command stands under its own id, and no id stands twice.
abbrev pub IsKeyed : Assoc Command → Type 0
IsKeyed [] = Unit
IsKeyed (e ∷ m) = (e.0 ≡ e.1.command_id) × Absent e.0 m × IsKeyed m

str_ne_symm : (i k : String) → str_eq i k ≡ false → str_eq k i ≡ false
str_ne_symm i k h = ground (arith, eq_iff i k, eq_iff k i)

insert-Absent :
    (k j : String) (c : Command) (m : Assoc Command)
    → str_eq j k ≡ false
    → Absent k m
    → Absent k (insert j c m)
unfolding insert
insert-Absent k j c [] h a = (h, tt)
insert-Absent k j c ((i, d) ∷ m) h a = ground (arith, insert-Absent k j c m h a.1)

pub insert-IsKeyed :
    (k : String) (c : Command) (m : Assoc Command)
    → k ≡ c.command_id
    → IsKeyed m
    → IsKeyed (insert k c m)
unfolding insert
insert-IsKeyed k c [] e v = (e, tt, tt)
insert-IsKeyed k c ((i, d) ∷ m) e (own, apart, rest) = elim (Bool-cases (str_eq i k)) [
  | inl same ↦ rw same (e, subst (λ j. Absent j m) ((eq_iff i k).0 same) apart, rest)
  | inr other ↦
      rw other
        (own, insert-Absent i k c m (str_ne_symm i k other) apart, insert-IsKeyed k c m e rest)
]

lookup-IsKeyed :
    (k : String) (c : Command) (m : Assoc Command)
    → IsKeyed m
    → lookup k m ≡ some c
    → c.command_id ≡ k
unfolding lookup
lookup-IsKeyed k c [] v h = cc
lookup-IsKeyed k c ((i, d) ∷ m) (own, apart, rest) h =
    ground (arith, eq_iff i k, lookup-IsKeyed k c m rest)

pub store_command-IsKeyed :
    (c : Command) (m : MemoryCache) → IsKeyed m.commands → IsKeyed (store_command c m).commands
unfolding store_command
store_command-IsKeyed c m v = ground (
  arith,
  insert-IsKeyed c.command_id (record c { id = bump m.next_id }) m.commands refl v,
  insert-IsKeyed c.command_id c m.commands refl v,
)

pub mark-IsKeyed :
    (now : Time) (k : String) (m : MemoryCache)
    → IsKeyed m.commands
    → IsKeyed (mark_command_complete now k m).commands
unfolding mark_command_complete
mark-IsKeyed now k m v = elim (Option-cases (lookup k m.commands)) [
  | inl e ↦ rw (e, mark_command_complete) v
  | inr (c, e) ↦
      rw (e, mark_command_complete)
        (insert-IsKeyed k (completed now c) m.commands (sym (lookup-IsKeyed k c m.commands v e)) v)
]

-- The visiting order of Go's `range` is any order of the map's values.
abbrev pub Visits : (Assoc Command → List Command) → Type 0
Visits range = (m : Assoc Command) → Perm (range m) (values m)

-- The pending commands come back in the order of their creation, each as often as the map holds it.
pub get_pending_commands_lem :
    (range : Assoc Command → List Command) (m : MemoryCache)
    → Visits range
    → IsSorted (λ c. c.created_at) (get_pending_commands range m)
      × Perm (get_pending_commands range m) (filter is_pending (values m.commands))
unfolding get_pending_commands
get_pending_commands_lem range m visits = (
  sort_pending-IsSorted _ (filter is_pending (range m.commands)),
  Perm.trans (sort_pending-perm _ (filter is_pending (range m.commands)))
      (filter-perm is_pending (visits m.commands)),
)

abbrev pub is_other_pending : String → Command → Bool
is_other_pending k c = is_pending c && not (str_eq c.command_id k)

pub pending_other :
    (k : String) (m : Assoc Command)
    → IsKeyed m
    → Absent k m
    → filter is_pending (values m) ≡ filter (is_other_pending k) (values m)
pending_other k [] v a = refl
pending_other k ((i, c) ∷ m) (own, apart, rest) a = ground (arith, pending_other k m rest a.1)

pending_insert :
    (now : Time) (k : String) (c : Command) (m : Assoc Command)
    → IsKeyed m
    → lookup k m ≡ some c
    → filter is_pending (values (insert k (completed now c) m))
      ≡ filter (is_other_pending k) (values m)
unfolding lookup insert
pending_insert now k c [] v h = cc
pending_insert now k c ((i, d) ∷ m) (own, apart, rest) h = elim (Bool-cases (str_eq i k)) [
  | inl same ↦
      let gone = pending_other k m rest (subst (λ j. Absent j m) ((eq_iff i k).0 same) apart) in
      rw same (ground (arith, gone, eq_iff i k, eq_iff d.command_id k))
  | inr other ↦
      let later = pending_insert now k c m rest in
      rw other (ground (arith, later, eq_iff i k, eq_iff d.command_id k))
]

pending_missing :
    (k : String) (m : Assoc Command)
    → IsKeyed m
    → lookup k m ≡ none
    → filter is_pending (values m) ≡ filter (is_other_pending k) (values m)
unfolding lookup
pending_missing k [] v h = refl
pending_missing k ((i, c) ∷ m) (own, apart, rest) h =
    ground (arith, eq_iff i k, pending_missing k m rest)

marked_list :
    (now : Time) (k : String) (m : MemoryCache)
    → IsKeyed m.commands
    → filter is_pending (values (mark_command_complete now k m).commands)
      ≡ filter (is_other_pending k) (values m.commands)
unfolding mark_command_complete
marked_list now k m v = elim (Option-cases (lookup k m.commands)) [
  | inl e ↦ rw (e, mark_command_complete) (pending_missing k m.commands v e)
  | inr (c, e) ↦ rw (e, mark_command_complete) (pending_insert now k c m.commands v e)
]

-- A completed command is pending no longer, and every other pending command stays.
pub pending-mark_command_complete :
    (range : Assoc Command → List Command) (now : Time) (k : String) (m : MemoryCache)
    → Visits range
    → IsKeyed m.commands
    → Perm
        (get_pending_commands range (mark_command_complete now k m))
        (filter (is_other_pending k) (values m.commands))
pending-mark_command_complete range now k m visits v =
    Perm.trans (get_pending_commands_lem range (mark_command_complete now k m) visits).1 (same_list)
  where
    same_list :
        Perm
          (filter is_pending (values (mark_command_complete now k m).commands))
          (filter (is_other_pending k) (values m.commands))
    same_list = rw (marked_list now k m v) (Perm.refl _)
