-- ===== src/Scheduler/Fairness.antt =====
-- The turns that `switch_task` of arch/src/x86_64/scheduler.rs gives while both queues hold a
-- process.
use proka_kernel.Base.{
  List, [], ap, arith, false, get_elem?, get_elem?-some, length, length-append, refl, some,
  some_inj, subst, suc, sym, true, zero, ℕ, ◌++◌, ◌<◌, ◌∙◌, ◌∷◌, ◌≡◌,
}
use proka_kernel.Process.{DriverProcess, Kernel}
use proka_kernel.Scheduler.{Exit, Interrupted, is_empty, load, switch_task}
use proka_kernel.Scheduler.Switching.{
  save_driver, save_normal, switch_task-to_driver, switch_task-to_normal,
}
use proka_kernel.Scheduler.Lifecycle.{IsRunnable, switch_task-Ticks}
use proka_kernel.Scheduler.Resume.{switch_all}

-- A queue after a number of turns.
pub rotate : ℕ → List ℕ → List ℕ
rotate zero q = q
rotate (suc n) [] = []
rotate (suc n) (x ∷ xs) = rotate n (xs ++ x ∷ [])

append_assoc : (xs ys zs : List ℕ) → (xs ++ ys) ++ zs ≡ xs ++ (ys ++ zs)
append_assoc [] ys zs = refl
append_assoc (x ∷ xs) ys zs = ap (λ ws. x ∷ ws) (append_assoc xs ys zs)

length-rotate : (n : ℕ) (q : List ℕ) → length (rotate n q) ≡ length q
unfolding rotate
length-rotate zero q = refl
length-rotate (suc n) [] = refl
length-rotate (suc n) (x ∷ xs) =
    omega (arith, length-rotate n (xs ++ x ∷ []), length-append xs (x ∷ []))

rotate-append : (xs zs : List ℕ) → rotate (length xs) (xs ++ zs) ≡ zs ++ xs
unfolding rotate
rotate-append [] zs = sym (append_nil zs)
  where
    append_nil : (ws : List ℕ) → ws ++ [] ≡ ws
    append_nil [] = refl
    append_nil (w ∷ ws) = ap (λ vs. w ∷ vs) (append_nil ws)
rotate-append (x ∷ xs) zs =
    ap (rotate (length xs)) (append_assoc xs zs (x ∷ []))
    ∙ rotate-append xs (zs ++ x ∷ [])
    ∙ append_assoc zs (x ∷ []) xs

-- The state after one turn of each kind.
pub record Round (k : Kernel) (i j : Interrupted) (p d : ℕ) (ps ds : List ℕ) : Type 0 where
  pub middle : Kernel × Exit
  pub after : Kernel
  pub loaded : DriverProcess
  pub first : switch_task k i ≡ some middle
  pub found : get_elem? middle.0.drivers d ≡ some loaded
  pub second : switch_task middle.0 j ≡ some (after, load loaded.context loaded.table_addr)
  pub runnable : IsRunnable after
  pub mode : after.is_driver ≡ false
  pub normals_turned : after.normal_queue ≡ ps ++ p ∷ []
  pub drivers_turned : after.driver_queue ≡ ds ++ d ∷ []

runs_on :
    (k : Kernel) (i : Interrupted) (r : Kernel × Exit)
    → IsRunnable k
    → switch_task k i ≡ some r
    → IsRunnable r.0
runs_on k i r v h =
    let (s, e, ticks) = switch_task-Ticks k i v in
    subst (λ (q : Kernel × Exit). IsRunnable q.0) (some_inj (sym e ∙ h)) ticks.runnable

not_empty : (xs : List ℕ) (x : ℕ) → is_empty (xs ++ x ∷ []) ≡ false
not_empty [] x = refl
not_empty (y ∷ xs) x = refl

abbrev waiting : Kernel → ℕ → List ℕ → ℕ → List ℕ → Kernel
waiting k p ps d ds = record k { is_driver = false; normal_queue = p ∷ ps; driver_queue = d ∷ ds }

waiting-Round :
    (k : Kernel) (i j : Interrupted) (p d : ℕ) (ps ds : List ℕ)
    → IsRunnable (waiting k p ps d ds)
    → Round (waiting k p ps d ds) i j p d ps ds
waiting-Round k i j p d ps ds v =
    let start = waiting k p ps d ds in
    let (q, has_q) =
      get_elem?-some k.drivers k.current_id
        (omega (arith, v.consistent.driver_table.sized, v.current_fits)) in
    let (n, has_n, first) = switch_task-to_normal start i q p ps v.consistent.normal_table has_q in
    let halfway : Kernel = record start {
      is_driver = true;
      drivers = save_driver start i q;
      current_id = p;
      normal_queue = ps ++ p ∷ [];
    } in
    let w : IsRunnable halfway =
      runs_on start i (halfway, load n.context n.current_table) v first in
    let (c, has_c, second) =
      switch_task-to_driver halfway j n d ds w.consistent.driver_table has_n in
    let end : Kernel = record halfway {
      is_driver = is_empty (ps ++ p ∷ []);
      normals = save_normal halfway j n;
      current_id = d;
      driver_queue = ds ++ d ∷ [];
    } in
    record {
      middle = (halfway, load n.context n.current_table);
      after = end;
      loaded = c;
      first = first;
      found = has_c;
      second = second;
      runnable = runs_on halfway j (end, load c.context c.table_addr) w second;
      mode = not_empty ps p;
      normals_turned = refl;
      drivers_turned = refl;
    }

as_waiting :
    (k : Kernel) (p d : ℕ) (ps ds : List ℕ)
    → k.is_driver ≡ false
    → k.normal_queue ≡ p ∷ ps
    → k.driver_queue ≡ d ∷ ds
    → k ≡ waiting k p ps d ds
as_waiting k p d ps ds e f g t = record k {
  is_driver = e t;
  normal_queue = f t;
  driver_queue = g t;
}

queued_Round :
    (k : Kernel) (i j : Interrupted) (p d : ℕ) (ps ds : List ℕ)
    → IsRunnable k
    → k.is_driver ≡ false
    → k.normal_queue ≡ p ∷ ps
    → k.driver_queue ≡ d ∷ ds
    → Round k i j p d ps ds
queued_Round k i j p d ps ds v e f g =
    let same = as_waiting k p d ps ds e f g in
    subst (λ (q : Kernel). Round q i j p d ps ds) (sym same)
      (waiting-Round k i j p d ps ds (subst IsRunnable same v))

-- Pairs of interrupts, one after the other.
pub ticks : List (Interrupted × Interrupted) → List Interrupted
ticks [] = []
ticks ((i, j) ∷ ts) = i ∷ j ∷ ticks ts

record Rounds (k m : Kernel) (n : ℕ) : Type 0 where
  runnable : IsRunnable m
  mode : m.is_driver ≡ false
  normals_turned : m.normal_queue ≡ rotate n k.normal_queue
  drivers_turned : m.driver_queue ≡ rotate n k.driver_queue

queue_form : (q : List ℕ) → 0 < length q → (x : ℕ) × (xs : List ℕ) × (q ≡ x ∷ xs)
queue_form [] h = absurd (omega arith)
queue_form (x ∷ xs) h = (x, xs, refl)

rounds :
    (k : Kernel) (ts : List (Interrupted × Interrupted))
    → IsRunnable k
    → k.is_driver ≡ false
    → 0 < length k.normal_queue
    → 0 < length k.driver_queue
    → (m : Kernel) × (switch_all k (ticks ts) ≡ some m) × Rounds k m (length ts)
unfolding switch_all ticks rotate
rounds k [] v e hn hd =
    (k, refl, record { runnable = v; mode = e; normals_turned = refl; drivers_turned = refl })
rounds k ((i, j) ∷ ts) v e hn hd =
    let (p, ps, f) = queue_form k.normal_queue hn in
    let (d, ds, g) = queue_form k.driver_queue hd in
    let r = queued_Round k i j p d ps ds v e f g in
    let (m, h, rest) =
      rounds r.after ts r.runnable r.mode
        (rw r.normals_turned (omega (arith, length-append ps (p ∷ []))))
        (rw r.drivers_turned (omega (arith, length-append ds (d ∷ [])))) in
    (
      m,
      rw (r.first, r.second, switch_all) h,
      record {
        runnable = rest.runnable;
        mode = rest.mode;
        normals_turned =
            rest.normals_turned
            ∙ ap (rotate (length ts)) r.normals_turned
            ∙ ap (rotate (suc (length ts))) (sym f);
        drivers_turned =
            rest.drivers_turned
            ∙ ap (rotate (length ts)) r.drivers_turned
            ∙ ap (rotate (suc (length ts))) (sym g);
      },
    )

-- Every waiting driver gets its turn: on a runnable kernel with a normal process waiting and
-- `IS_DRIVER` clear, after two interrupts for each driver before it in the queue, the second of the
-- next two interrupts loads it.
pub switch_all-turn :
    (k : Kernel) (ts : List (Interrupted × Interrupted)) (i j : Interrupted) (d : ℕ)
    (xs ys : List ℕ)
    → IsRunnable k
    → k.is_driver ≡ false
    → 0 < length k.normal_queue
    → k.driver_queue ≡ xs ++ d ∷ ys
    → length ts ≡ length xs
    → (m : Kernel) × (r : Kernel × Exit) × (after : Kernel) × (c : DriverProcess) × (switch_all k
          (ticks ts)
        ≡ some m)
      × (switch_task m i ≡ some r)
      × (get_elem? r.0.drivers d ≡ some c)
      × (switch_task r.0 j ≡ some (after, load c.context c.table_addr))
switch_all-turn k ts i j d xs ys v e hn queue turns =
    let some_driver : 0 < length k.driver_queue =
      rw queue (omega (arith, length-append xs (d ∷ ys))) in
    let (m, h, rest) = rounds k ts v e hn some_driver in
    let front : m.driver_queue ≡ d ∷ (ys ++ xs) =
      rest.drivers_turned
      ∙ ap (λ n. rotate n k.driver_queue) turns
      ∙ ap (rotate (length xs)) queue
      ∙ rotate-append xs (d ∷ ys) in
    let (p, ps, f) =
      queue_form m.normal_queue
        (rw rest.normals_turned (omega (arith, length-rotate (length ts) k.normal_queue, hn))) in
    let r = queued_Round m i j p d ps (ys ++ xs) rest.runnable rest.mode f front in
    (m, r.middle, r.after, r.loaded, h, r.first, r.found, r.second)
