-- ===== src/Simulation/Calls.antt =====
-- The calls of the trace backend, each of which finds its own stale memory, as runs of the backend
-- behind the interface.
use tcp_hw.Base.{
  ℕ, zero, suc, true, false, ◌+◌, ◌-◌, ◌<◌, ◌≡◌, ◌∙◌, refl, sym, ap, subst, arith, some, List, [],
  ◌∷◌, Bytes, length, ◌==◌, >>=-eq-some, some-injective, Bool-cases, inl, inr,
}
use tcp_hw.Backend.{Yields, rests, gives, kept, Accepts, stays, takes}
use tcp_hw.Frame.{FlowTuple}
use tcp_hw.TcpTrace.{TcpTrace, Stale, FlowMap, get_buf_fr_io, put_buf_on_io}
use tcp_hw.TcpTrace.Reading.{fetch}
use tcp_hw.TcpTrace.Rest.{fetch_rest}
use tcp_hw.TcpTrace.Passes.{check_all}
use tcp_hw.Mimic.Matching.{Comparison}
use tcp_hw.Simulation.{Running, tcp_backend}

abbrev pub run_at : ℕ → TcpTrace → Running TcpTrace
run_at c t = record { calls = c; object = t }

kept-empty : (out : Bytes) → (length out == 0) ≡ true → kept out [] ≡ []
kept-empty [] e = refl
kept-empty (b ∷ bs) e = ground (arith, e)

kept-full :
    (out : Bytes) (outs : List Bytes) → (length out == 0) ≡ false → kept out outs ≡ out ∷ outs
kept-full [] outs e = ground (arith, e)
kept-full (b ∷ bs) outs e = refl

module _ (order : FlowMap → List FlowTuple) (stale : ℕ → Stale) where
  -- One call.
  pub get_run :
      (c : ℕ) (t : TcpTrace) (now : Stale) {out : Bytes} {t' : TcpTrace}
      → now ≡ stale c
      → get_buf_fr_io order now t ≡ some (out, t')
      → (tcp_backend order stale).get_buf_fr_io (run_at c t) ≡ some (out, run_at (c + 1) t')
  unfolding tcp_backend
  get_run c t now at e = rw (sym at, e) refl

  pub put_run :
      (c : ℕ) (t : TcpTrace) (p : Bytes) {t' : TcpTrace} {size : ℕ} {cs : List Comparison}
      → put_buf_on_io p t ≡ some (cs, t', size)
      → (tcp_backend order stale).put_buf_on_io p (run_at c t) ≡ some (size, run_at (c + 1) t')
  unfolding tcp_backend
  put_run c t p e = rw e refl

  -- The memory of the calls, counted from the last.
  abbrev pub Counted : (ℕ → Stale) → ℕ → ℕ → Type 0
  Counted now c n = (i : ℕ) → i < n → now i ≡ stale (c + (n - suc i))

  Counted-suc : (now : ℕ → Stale) (c n : ℕ) → Counted now c (suc n) → Counted now (c + 1) n
  Counted-suc now c n h i less =
      let same : c + (suc n - suc i) ≡ c + 1 + (n - suc i) = omega arith in
      h i (omega arith) ∙ ap stale same

  Counted-zero : (now : ℕ → Stale) (c n : ℕ) → Counted now c (suc n) → now n ≡ stale c
  Counted-zero now c n h =
      let same : c + (suc n - suc n) ≡ c = omega arith in h n (omega arith) ∙ ap stale same

  -- The calls of the backend from the c-th up to the d-th, and the packets and the object that they
  -- leave.
  abbrev pub RunYields : ℕ → ℕ → TcpTrace → List Bytes × TcpTrace → Type 0
  RunYields c d t left = Yields (tcp_backend order stale) (run_at c t) left.0 (run_at d left.1)

  pub fetch-Yields :
      (now : ℕ → Stale) (n c d : ℕ) (t : TcpTrace) (left : List Bytes × TcpTrace)
      → d ≡ c + n
      → Counted now c n
      → fetch order now n t ≡ some left
      → RunYields c d t left
  unfolding fetch
  fetch-Yields now zero c d t left count h e =
      let same : c ≡ d = omega (arith, count) in
      subst (RunYields c d t) (some-injective e)
        (subst (λ (j : ℕ). RunYields c j t ([], t)) same rests)
  fetch-Yields now (suc n) c d t left count h e =
      let ((out, t1), got, later) = >>=-eq-some (get_buf_fr_io order (now n) t) _ e in
      let ((outs, t2), rest, same) = >>=-eq-some (fetch order now n t1) _ later in
      let next =
        fetch-Yields now n (c + 1) d t1 (outs, t2) (omega (arith, count)) (Counted-suc now c n h)
          rest in
      subst (RunYields c d t) (some-injective same)
        (gives (get_run c t (now n) (Counted-zero now c n h) got) next)

  -- The last call returns nothing.
  pub fetch_rest-Yields :
      (now : ℕ → Stale) (n c : ℕ) (t : TcpTrace) (left : List Bytes × TcpTrace)
      → Counted now c n
      → fetch_rest order now n t ≡ some left
      → (d : ℕ) × RunYields c d t left
  unfolding fetch_rest
  fetch_rest-Yields now zero c t left h e = cc
  fetch_rest-Yields now (suc n) c t left h e =
      let ((out, t1), got, later) = >>=-eq-some (get_buf_fr_io order (now n) t) _ e in
      let run = get_run c t (now n) (Counted-zero now c n h) got in
      elim (Bool-cases (length out == 0)) [
        | inl z ↦
            subst (λ l. (d : ℕ) × RunYields c d t l) (some-injective (rw z at later))
              (
                c + 1,
                subst (λ o. Yields (tcp_backend order stale) (run_at c t) o (run_at (c + 1) t1))
                    (kept-empty out z) (gives run rests),
              )
        | inr z ↦
            let more = rw z at later in
            let ((outs, t2), rest, same) = >>=-eq-some (fetch_rest order now n t1) _ more in
            let (d, next) =
              fetch_rest-Yields now n (c + 1) t1 (outs, t2) (Counted-suc now c n h) rest in
            subst (λ l. (d : ℕ) × RunYields c d t l) (some-injective same)
              (
                d,
                subst (λ o. Yields (tcp_backend order stale) (run_at c t) o (run_at d t2))
                    (kept-full out outs z) (gives run next),
              )
      ]

  pub check_all-Accepts :
      (c : ℕ) (t : TcpTrace) (ps : List Bytes) (left : List Comparison × TcpTrace)
      → check_all ps t ≡ some left
      → (d : ℕ) × Accepts (tcp_backend order stale) (run_at c t) ps (run_at d left.1)
  unfolding check_all
  check_all-Accepts c t [] left e = (
    c,
    subst (λ (u : TcpTrace). Accepts (tcp_backend order stale) (run_at c t) [] (run_at c u))
        (ap (λ (q : List Comparison × TcpTrace). q.1) (some-injective e)) stays,
  )
  check_all-Accepts c t (p ∷ ps) left e =
      let ((cs, t1, size), put, later) = >>=-eq-some (put_buf_on_io p t) _ e in
      let ((ds, t2), rest, same) = >>=-eq-some (check_all ps t1) _ later in
      let (d, next) = check_all-Accepts (c + 1) t1 ps (ds, t2) rest in
      (
        d,
        subst
            (λ (u : TcpTrace). Accepts (tcp_backend order stale) (run_at c t) (p ∷ ps) (run_at d u))
            (ap (λ (q : List Comparison × TcpTrace). q.1) (some-injective same))
            (takes (put_run c t p put) next),
      )
