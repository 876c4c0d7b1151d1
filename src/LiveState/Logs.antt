-- ===== src/LiveState/Logs.antt =====
-- Which log lines the hook of frontend/src/useLiveState.ts keeps.
use tether_ddns.Prelude.{
  ℕ, zero, suc, ◌+◌, ◌-◌, ◌≤◌, ◌≡◌, refl, sym, ◌∙◌, ap, String, true, false, List, [], ◌∷◌, ◌++◌,
  length, drop, take_last, length-append, length-take_last, min, ◌==◌, string_eq, Bool-cases, inl,
  inr, arith, if◌then◌else◌,
}
use tether_ddns.Types.{StateSnapshot, LogEntry}
use tether_ddns.LiveConnection.State.{Envelope, Call, status_call, message_call, connected_call}
use tether_ddns.LiveState.{LiveState, initial, on_envelope, on_call, after_calls}

module _ {A : Type 0} where
  drop-nil : (n : ℕ) → drop {A = A} n [] ≡ []
  drop-nil zero = refl
  drop-nil (suc n) = refl

  drop-drop : (m n : ℕ) (xs : List A) → drop m (drop n xs) ≡ drop (n + m) xs
  drop-drop m zero xs = ap (λ k. drop k xs) (omega arith)
  drop-drop m (suc n) [] = drop-nil m ∙ sym (drop-nil (suc n + m))
  drop-drop m (suc n) (x ∷ xs) =
      let same : suc (n + m) ≡ suc n + m = omega arith in
      drop-drop m n xs ∙ ap (λ k. drop k (x ∷ xs)) same

  drop-append : (n : ℕ) (xs ys : List A) → n ≤ length xs → drop n (xs ++ ys) ≡ drop n xs ++ ys
  drop-append zero xs ys h = refl
  drop-append (suc n) [] ys h = absurd (omega arith)
  drop-append (suc n) (x ∷ xs) ys h = ground (arith, drop-append n xs ys (omega arith))

  -- Keeping 499 and adding one keeps the last 500 of all.
  take_last_step :
      (h : List A) (x : A) → take_last 499 (take_last 500 h) ++ x ∷ [] ≡ take_last 500 (h ++ x ∷ [])
  take_last_step h x =
      let inner : length (take_last 500 h) ≡ min 500 (length h) = length-take_last 500 h in
      let n : ℕ = length h - 499 in
      let once : take_last 499 (take_last 500 h) ≡ drop n h =
        drop-drop (length (take_last 500 h) - 499) (length h - 500) h
        ∙ ap (λ k. drop k h) (omega (arith, inner)) in
      let all : length (h ++ x ∷ []) ≡ length h + 1 = length-append h (x ∷ []) in
      rw once (
        sym (drop-append n h (x ∷ []) (omega arith))
        ∙ ap (λ k. drop k (h ++ x ∷ [])) (omega (arith, all)))

not_log : (k : String) → (k == "state") ≡ true → (k == "log") ≡ false
not_log k h = rw ((string_eq.beq_iff k "state").0 h) refl

module _ {A : Type 0} (as_snapshot : A → StateSnapshot) (as_log : A → LogEntry) where
  -- The log lines that have arrived since the connection last opened, oldest first.
  abbrev pub lines_since_open : List (Call A) → List LogEntry → List LogEntry
  lines_since_open [] h = h
  lines_since_open (status_call l s ∷ cs) h = lines_since_open cs h
  lines_since_open (connected_call l g ∷ cs) h = lines_since_open cs []
  lines_since_open (message_call l e ∷ cs) h =
      lines_since_open cs (if e.kind == "log" then h ++ as_log e.payload ∷ [] else h)

  message_logs :
      (e : Envelope A) (s : LiveState) (h : List LogEntry)
      → s.logs ≡ take_last 500 h
      → (on_envelope as_snapshot as_log e s).logs
        ≡ take_last 500 (if e.kind == "log" then h ++ as_log e.payload ∷ [] else h)
  unfolding on_envelope
  message_logs e s h same = elim (Bool-cases (e.kind == "state")) [
    | inl is_state ↦ rw (is_state, not_log e.kind is_state) same
    | inr other ↦ elim (Bool-cases (e.kind == "log")) [
      | inl is_log ↦ rw (other, is_log, same) (take_last_step h (as_log e.payload))
      | inr neither ↦ rw (other, neither) same
    ]
  ]

  logs_lem :
      (cs : List (Call A)) (s : LiveState) (h : List LogEntry)
      → s.logs ≡ take_last 500 h
      → (after_calls as_snapshot as_log cs s).logs ≡ take_last 500 (lines_since_open cs h)
  unfolding after_calls on_call
  logs_lem [] s h same = same
  logs_lem (status_call l st ∷ cs) s h same = logs_lem cs (record s { status = st }) h same
  logs_lem (connected_call l g ∷ cs) s h same =
      logs_lem cs (record s { logs = []; generation = g }) [] refl
  logs_lem (message_call l e ∷ cs) s h same =
      logs_lem cs (on_envelope as_snapshot as_log e s)
        (if e.kind == "log" then h ++ as_log e.payload ∷ [] else h) (message_logs e s h same)

  -- The page shows the last 500 of the log lines that have arrived since the connection last opened,
  -- in the order of their arrival, and so never more than 500.
  pub newest_lines :
      (cs : List (Call A))
      → let s = after_calls as_snapshot as_log cs initial in
        (s.logs ≡ take_last 500 (lines_since_open cs [])) × (length s.logs ≤ 500)
  newest_lines cs =
      let e = logs_lem cs initial [] refl in
      (e, rw e (omega (arith, length-take_last 500 (lines_since_open cs []))))
