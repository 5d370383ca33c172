-- ===== src/Api/Commands/Recovery.antt =====
-- What comes back from the cache of the commands that were put there.
use castle_ops_client.Prelude.{
  ℕ, String, ◌≡◌, refl, ap, inl, inr, Option, some, none, List, [], ◌∷◌, Result, ok, err,
  Result-cases, Perm, filter,
}
use castle_ops_client.Prelude.Int.{ℤ, pos}
use castle_ops_client.Cache.Types.{Time}
use castle_ops_client.Cache.Types
use castle_ops_client.Prelude.Assoc.{Assoc, values}
use castle_ops_client.Cache.Memory.{get_pending_commands, MemoryCache, bump}
use castle_ops_client.Cache.Memory.Commands.{
  Visits, IsKeyed, is_other_pending, pending-mark_command_complete,
}
use castle_ops_client.Cache.Memory.Pending.{pending-store_command}
use castle_ops_client.Cache.Interface.{memory_cache}
use castle_ops_client.Api.Models.{Command}
use castle_ops_client.Api.Http.{Net}
use castle_ops_client.Api.Methods.{Codecs}
use castle_ops_client.Api.Commands.{
  Texts, Handler, to_cache, from_cache, restored, handle_command, execute_command,
}
use mathlib.Core.List
use mathlib.Core.List.Perm
use mathlib.Core.Path.{subst₂}
use mathlib.Core.Option.{Option-elim}

-- The command as it is run after a restart.
abbrev pub without_limits : Command → Command
without_limits cmd = record cmd { priority = pos 0; timeout = pos 0 }

to_option : {A : Type 0} → Result A → Option A
to_option (ok a) = some a
to_option (err e) = none

restored-filter_map :
    (texts : Texts) (l : List Types.Command)
    → List.filter_map (λ c. to_option (from_cache texts c)) l ≡ restored texts l
unfolding restored to_option List.filter_map Option-elim
restored-filter_map texts [] = refl
restored-filter_map texts (c ∷ l) = elim (Result-cases (from_cache texts c)) [
  | inl (cmd, e) ↦ rw (restored, e) (ap (λ l. cmd ∷ l) (restored-filter_map texts l))
  | inr (x, e) ↦ rw (restored, e) (restored-filter_map texts l)
]

restored-perm :
    (texts : Texts) {l l' : List Types.Command}
    → Perm l l'
    → Perm (restored texts l) (restored texts l')
restored-perm texts {l} {l'} h =
    subst₂ (λ a b. Perm a b) (restored-filter_map texts l) (restored-filter_map texts l')
      (Perm.filter_map (λ c. to_option (from_cache texts c)) h)

from_cache-to_cache :
    (texts : Texts) (now : Time) (id : ℕ) (text : String) (cmd : Command)
    → texts.unmarshal text ≡ ok cmd.payload
    → from_cache texts (record (to_cache now text cmd) { id = id }) ≡ ok (without_limits cmd)
unfolding from_cache to_cache
from_cache-to_cache texts now id text cmd h = rw (from_cache, h) refl

restored-stored :
    (texts : Texts) (now : Time) (id : ℕ) (text : String) (cmd : Command) (l : List Types.Command)
    → texts.unmarshal text ≡ ok cmd.payload
    → restored texts (record (to_cache now text cmd) { id = id } ∷ l)
      ≡ without_limits cmd ∷ restored texts l
unfolding restored
restored-stored texts now id text cmd l h =
    rw (restored, from_cache-to_cache texts now id text cmd h) refl

module _ {W : Type 0} (texts : Texts) (range : Assoc Types.Command → List Types.Command) where
  -- If a command's payload is encoded, as a text that decodes to the payload again, then HandleCommand
  -- over the in-memory cache returns nil, and ProcessPendingCommands from then on restores exactly
  -- that command, with its id, type and payload but the priority and the timeout 0, and what it would
  -- restore of the other pending commands; a pending command with the same id is replaced.
  pub restored-handle_command :
      (now : Time) (cmd : Command) (text : String) (h : Handler W MemoryCache)
      → Visits range
      → IsKeyed h.cache.commands
      → texts.marshal cmd.payload ≡ ok text
      → texts.unmarshal text ≡ ok cmd.payload
      → ((handle_command texts (memory_cache range) now cmd h).0 ≡ ok tt)
        × Perm
            (restored texts (
              get_pending_commands range
                (handle_command texts (memory_cache range) now cmd h).1.cache))
            (without_limits cmd
              ∷ restored texts (filter (is_other_pending cmd.command_id) (values h.cache.commands)))
  unfolding handle_command
  restored-handle_command now cmd text h visits keyed m u =
      let found =
        Perm.trans
          (restored-perm texts (
            pending-store_command range (to_cache now text cmd) h.cache visits keyed
              (unfold to_cache in refl) (unfold to_cache in refl)))
          (rw (restored-stored texts now (bump h.cache.next_id) text cmd _ u) (Perm.refl _)) in
      rw (handle_command, m) (refl, (unfold to_cache in found))

-- Executing a command takes it, and no other, out of the pending commands of the in-memory cache,
-- whatever the executor answers and whether or not the result reaches the server.
pub pending-execute_command :
    (net : Net) (codecs : Codecs) (texts : Texts) (range : Assoc Types.Command → List Types.Command)
    (elapsed late : ℤ) (now : Time) (cmd : Command) (h : Handler net.World MemoryCache)
    (w : net.World)
    → Visits range
    → IsKeyed h.cache.commands
    → Perm
        (get_pending_commands range
          (execute_command net codecs texts (memory_cache range) elapsed late now cmd h w).0.cache)
        (filter (is_other_pending cmd.command_id) (values h.cache.commands))
unfolding execute_command
pending-execute_command net codecs texts range elapsed late now cmd h w visits keyed =
    pending-mark_command_complete range now cmd.command_id h.cache visits keyed
