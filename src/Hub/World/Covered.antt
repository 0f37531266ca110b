-- ===== src/Hub/World/Covered.antt =====
-- An action of a worker of api/hub/worker.py, and the calls of pay that the tables account for.
use homtech_hub.Prelude.{
  ℕ, ◌+◌, ◌≤◌, Text, ◌≡◌, inl, inr, List, Option, none, some, Option-cases, total, total-append,
  All, get_elem?, get_elem?-total, set-total, get_elem?-All, set-All, remove_at-All, arith,
  text_eq_iff,
}
use homtech_hub.Hub.Domain.{Purchase}
use homtech_hub.Hub.Provider.{Response, Call}
use homtech_hub.Hub.Crypto.{Crypto}
use homtech_hub.Hub.Repository.Table.{Db, Row}
use homtech_hub.Hub.Repository.Marks.{mark, topup_allowed}
use homtech_hub.Hub.Program.{Prog, done, raise, ask, transact, permit, defer}
use homtech_hub.Hub.Service.Arming.{pays, pending, IsDisciplined}
use homtech_hub.Hub.World.{World, advance_program, replaced, advance_worker, advanced}
use homtech_hub.Hub.World.Shares.{share, owns, Grows, mark-Grows, defer_topup-Grows, started}

-- What holds of the system for one operation: as many payments as were asked for, and as are about to
-- be, its purchase accounts for.
pub record Inv (op : Text) (w : World) : Type 0 where
  pub disciplined : All IsDisciplined w.workers
  pub single : total (owns op) w.db.purchases ≤ 1
  pub counted :
      total (pays op) w.calls + total (pending op) w.workers ≤ total (share op) w.db.purchases

-- What is left of a program.
abbrev pub pending_next : Text → Option (Prog Purchase) → ℕ
pending_next op none = 0
pending_next op (some p) = pending op p

abbrev pub IsDisciplinedNext : Option (Prog Purchase) → Type 0
IsDisciplinedNext none = Unit
IsDisciplinedNext (some p) = IsDisciplined p

-- One action of a program: the calls that it makes and the payment that it is then about to make are
-- covered by what it was about to pay, and by the growth of the shares.
abbrev pub Covered : Text → Prog Purchase → Db → Option (Prog Purchase) × Db × List Call → Type 0
Covered op p db (next, db', calls) =
    IsDisciplinedNext next
    × (total (pays op) calls + pending_next op next + total (share op) db.purchases
        ≤ pending op p + total (share op) db'.purchases)
    × (total (owns op) db.purchases ≤ 1 → total (owns op) db'.purchases ≤ 1)

module _ (c : Crypto) (op : Text) where
  pub advance_program-Covered :
      (now : ℕ) (r : Response) (p : Prog Purchase) (db : Db)
      → IsDisciplined p
      → Covered op p db (advance_program c now r p db)
  unfolding advance_program
  advance_program-Covered now r (done p) db h = (tt, omega arith, λ one. one)
  advance_program-Covered now r (raise e) db h = (tt, omega arith, λ one. one)
  advance_program-Covered now r (ask call k) db h = ((h r).1, omega (arith, (h r).0 op), λ one. one)
  advance_program-Covered now r (transact id token m k) db h =
      let grows = mark-Grows op c now id token m db h.0 in
      let outcome = (mark c now id token m db).0 in
      ((h.1 outcome).1, omega (arith, (h.1 outcome).0 op, grows), grows.1)
  advance_program-Covered now r (permit scope k) db h =
      let allowed = topup_allowed scope db in
      ((h allowed).1, omega (arith, (h allowed).0 op), λ one. one)
  advance_program-Covered now r (defer id token k) db h =
      let grows = defer_topup-Grows op now id token db in
      (h.1, omega (arith, h.0 op, grows), grows.1)

  pub replaced-pending :
      (workers : List (Prog Purchase)) (i : ℕ) (p : Prog Purchase) (next : Option (Prog Purchase))
      → get_elem? workers i ≡ some p
      → total (pending op) (replaced workers i next) + pending op p
        ≡ total (pending op) workers + pending_next op next
  replaced-pending workers i p none found =
      omega (arith, get_elem?-total (pending op) workers i p found)
  replaced-pending workers i p (some q) found = set-total (pending op) workers i q p found

  pub replaced-All :
      (workers : List (Prog Purchase)) (i : ℕ) (next : Option (Prog Purchase))
      → All IsDisciplined workers
      → IsDisciplinedNext next
      → All IsDisciplined (replaced workers i next)
  replaced-All workers i none all h = remove_at-All IsDisciplined workers i all
  replaced-All workers i (some q) all h = set-All IsDisciplined workers i q all h

  pub advanced-Inv :
      (i now : ℕ) (r : Response) (w : World) (p : Prog Purchase)
      → get_elem? w.workers i ≡ some p
      → Inv op w
      → Inv op (advanced c i now r w p)
  advanced-Inv i now r w p found inv =
      let covered =
        advance_program-Covered now r p w.db
          (get_elem?-All IsDisciplined w.workers i inv.disciplined found) in
      let (next, db', calls) = advance_program c now r p w.db in
      record {
        disciplined = replaced-All w.workers i next inv.disciplined covered.0;
        single = covered.2 inv.single;
        counted =
            rw (total-append (pays op) w.calls calls)
              (omega (arith, covered.1, replaced-pending w.workers i p next found, inv.counted));
      }

  pub advance_worker-Inv :
      (i now : ℕ) (r : Response) (w : World) → Inv op w → Inv op (advance_worker c i now r w)
  unfolding advance_worker
  advance_worker-Inv i now r w inv = elim (Option-cases (get_elem? w.workers i)) [
    | inl gone ↦ rw (gone, advance_worker) inv
    | inr (p, found) ↦ rw (found, advance_worker) (advanced-Inv i now r w p found inv)
  ]

pub own_share :
    (op : Text) (r : Row)
    → r.provider_operation_id ≡ op
    → (owns op r ≡ 1) × (share op r ≤ started r.state)
own_share op r mine = ground (arith, text_eq_iff r.provider_operation_id op)

-- The tables change, and the shares do not fall.
pub with_db-Inv :
    (op : Text) (w : World) (db' : Db)
    → Grows op 0 w.db.purchases db'.purchases
    → Inv op w
    → Inv op (record w { db = db' })
with_db-Inv op w db' grows inv = record {
  disciplined = inv.disciplined;
  single = grows.1 inv.single;
  counted = omega (arith, grows, inv.counted);
}
