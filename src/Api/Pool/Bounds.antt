-- ===== src/Api/Pool/Bounds.antt =====
-- The worker pool's bound, and that no command is lost or run twice.
use castle_ops_client.Prelude.{
  ◌≤◌, ◌≡◌, sym, ap, subst, false, List, [], ◌∷◌, ◌++◌, Perm, arith, length, length-append,
}
use castle_ops_client.Api.Models.{Command}
use castle_ops_client.Api.Pool.{
  Pool, start_execution, Step, acquire, drop, finish, stop, Run, here, started, moved,
}
use mathlib.Core.List.{perm_middle, append-nil}
use mathlib.Core.List.Perm

-- All the commands that were started.
abbrev pub commands_of : Pool → List Command
commands_of p = p.waiting ++ (p.running ++ (p.finished ++ p.dropped))

abbrev Within : Pool → Type 0
Within p = length p.running ≤ p.capacity

Step-Within : {p q : Pool} → Step p q → Within p → Within q
Step-Within (acquire p q before after cmd e room h) b = ground (arith, h)
Step-Within (drop p q before after cmd e stopped h) b = ground (arith, h)
Step-Within (finish p q before after cmd e h) b =
    ground (arith, h, ap length e, length-append before after, length-append before (cmd ∷ after))
Step-Within (stop p q h) b = ground (arith, h)

-- Taking `x` out of the first list.
take_out :
    {A : Type 0} (before after rest : List A) (x : A)
    → Perm ((before ++ x ∷ after) ++ rest) (x ∷ ((before ++ after) ++ rest))
take_out before after rest x = Perm.append_right rest (perm_middle before after)

-- Taking `x` out from behind three lists.
take_last :
    {A : Type 0} (xs ys zs rest : List A) (x : A)
    → Perm (xs ++ (ys ++ (zs ++ x ∷ rest))) (x ∷ (xs ++ (ys ++ (zs ++ rest))))
take_last xs ys zs rest x =
    Perm.trans
      (Perm.append_left xs
        (Perm.trans (Perm.append_left ys (perm_middle zs rest)) (perm_middle ys (zs ++ rest))))
      (perm_middle xs (ys ++ (zs ++ rest)))

Step-perm : {p q : Pool} → Step p q → Perm (commands_of q) (commands_of p)
Step-perm (acquire p q before after cmd e room h) =
    subst (λ q. Perm (commands_of q) (commands_of p)) (sym h)
      (subst
        (λ w.
          Perm ((before ++ after) ++ (cmd ∷ p.running ++ (p.finished ++ p.dropped)))
            (w ++ (p.running ++ (p.finished ++ p.dropped))))
        (sym e)
        (Perm.trans (perm_middle (before ++ after) (p.running ++ (p.finished ++ p.dropped)))
          (Perm.symm (take_out before after (p.running ++ (p.finished ++ p.dropped)) cmd))))
Step-perm (drop p q before after cmd e stopped h) =
    subst (λ q. Perm (commands_of q) (commands_of p)) (sym h)
      (subst
        (λ w.
          Perm ((before ++ after) ++ (p.running ++ (p.finished ++ cmd ∷ p.dropped)))
            (w ++ (p.running ++ (p.finished ++ p.dropped))))
        (sym e)
        (Perm.trans (take_last (before ++ after) p.running p.finished p.dropped cmd)
          (Perm.symm (take_out before after (p.running ++ (p.finished ++ p.dropped)) cmd))))
Step-perm (finish p q before after cmd e h) =
    subst (λ q. Perm (commands_of q) (commands_of p)) (sym h)
      (subst
        (λ r.
          Perm (p.waiting ++ ((before ++ after) ++ (cmd ∷ p.finished ++ p.dropped)))
            (p.waiting ++ (r ++ (p.finished ++ p.dropped))))
        (sym e)
        (Perm.append_left p.waiting (
          Perm.trans (perm_middle (before ++ after) (p.finished ++ p.dropped))
            (Perm.symm (take_out before after (p.finished ++ p.dropped) cmd)))))
Step-perm (stop p q h) = subst (λ q. Perm (commands_of q) (commands_of p)) (sym h) (Perm.refl _)

start_execution-perm :
    (cmd : Command) (p : Pool) → Perm (commands_of (start_execution cmd p)) (cmd ∷ commands_of p)
unfolding start_execution
start_execution-perm cmd p =
    subst
      (λ w.
        Perm ((p.waiting ++ cmd ∷ []) ++ (p.running ++ (p.finished ++ p.dropped)))
          (cmd ∷ (w ++ (p.running ++ (p.finished ++ p.dropped)))))
      (append-nil p.waiting) (take_out p.waiting [] (p.running ++ (p.finished ++ p.dropped)) cmd)

started-perm :
    (q r : Pool) (cmd : Command) (cmds : List Command) (p : Pool)
    → r ≡ start_execution cmd q
    → Perm (commands_of q) (cmds ++ commands_of p)
    → Perm (commands_of r) (cmd ∷ cmds ++ commands_of p)
started-perm q r cmd cmds p h k =
    subst (λ s. Perm (commands_of s) (cmd ∷ cmds ++ commands_of p)) (sym h)
      (Perm.trans (start_execution-perm cmd q) (Perm.cons cmd k))

-- However the scheduler moves, no more commands run at once than the pool has places.
pub Run-bounded :
    {p q : Pool} {cmds : List Command}
    → length p.running ≤ p.capacity
    → Run p cmds q
    → length q.running ≤ q.capacity
unfolding start_execution
Run-bounded b here = b
Run-bounded b (started cmd r h) = ground (arith, h, Run-bounded b r)
Run-bounded b (moved r s) = Step-Within s (Run-bounded b r)

-- Each command that was started waits, runs, has finished or was dropped, and is there once for
-- each time that it was started.
pub Run-perm :
    {p q : Pool} {cmds : List Command} → Run p cmds q → Perm (commands_of q) (cmds ++ commands_of p)
Run-perm here = Perm.refl _
Run-perm {p} {q} (started {cmds = older} {q = before} cmd r h) =
    started-perm before q cmd older p h (Run-perm r)
Run-perm (moved r s) = Perm.trans (Step-perm s) (Run-perm r)

Step-dropped :
    {p q : Pool}
    → Step p q
    → (p.stopped ≡ false → p.dropped ≡ [])
    → q.stopped ≡ false
    → q.dropped ≡ []
Step-dropped (acquire p q before after cmd e room h) d s = ground (arith, h, d)
Step-dropped (drop p q before after cmd e stopped h) d s = ground (arith, h)
Step-dropped (finish p q before after cmd e h) d s = ground (arith, h, d)
Step-dropped (stop p q h) d s = ground (arith, h)

-- As long as the handler was not stopped, no command was dropped.
pub Run-dropped :
    {p q : Pool} {cmds : List Command}
    → Run p cmds q
    → p.dropped ≡ []
    → q.stopped ≡ false
    → q.dropped ≡ []
unfolding start_execution
Run-dropped here d s = d
Run-dropped (started cmd r h) d s = ground (arith, h, Run-dropped r d)
Run-dropped (moved r st) d s = Step-dropped st (Run-dropped r d) s
