-- ===== src/Handler/EmailVerification/Attempts.antt =====
-- The number of attempts on a row of handler/email_verification.go, over any sequence of the
-- service's operations.
use teenet_wallet.Base.{
  ℕ, ◌-◌, ◌≤◌, ◌≡◌, refl, String, Bool, true, false, ◌&&◌, Option, none, some, inl, inr, List, [],
  ◌∷◌, if◌then◌else◌, ◌==◌, nat_eq, string_eq, ltb, leb, Bool-cases, subst, sym, ap, ◌∙◌, arith,
  and_true,
}
use teenet_wallet.Db.{
  Found, found, missing, failed, Created, created, duplicate, not_created, Table, map_row,
  row_after_create,
}
use teenet_wallet.Model.{User}
use teenet_wallet.Handler.EmailVerification.{
  EmailVerification, EmailVerificationConfig, Ordered, EmailTools, normalize_email, unconsumed_for,
  verify_code, check_row, send_code, consume_verification, give_id, nonempty, existing_id,
  set_verified, count_attempt, force_expire, new_row, inserted_and_sent, after_sweep,
  sweep_and_send, after_cooldown, unless_taken, validate_email_format, live_for, stale_for,
  has_email, consume_row, usable,
}

module _ (tools : EmailTools) (cfg : EmailVerificationConfig) (t : Table EmailVerification)
    (order : Ordered t) where
  -- No row has more attempts than are allowed.
  unfoldable pub IsLimited : t.Store → Type 0
  IsLimited s = (j : ℕ) (v : EmailVerification) → t.row j s ≡ some v → v.attempts ≤ cfg.max_attempts

  changed-attempts :
      (f : EmailVerification → EmailVerification) (hit : Bool) (r : Option EmailVerification)
      (v : EmailVerification)
      → ((x : EmailVerification) → r ≡ some x → (hit ≡ true) → (f x).attempts ≤ cfg.max_attempts)
      → ((x : EmailVerification) → r ≡ some x → x.attempts ≤ cfg.max_attempts)
      → (if hit then map_row f r else r) ≡ some v
      → v.attempts ≤ cfg.max_attempts
  changed-attempts f false r v new old e = old v e
  changed-attempts f true none v new old e = old v e
  changed-attempts f true (some x) v new old e =
      let q : f x ≡ v = cc e in subst (λ y. y.attempts ≤ cfg.max_attempts) q (new x refl refl)

  update-IsLimited :
      (key : ℕ) (f : EmailVerification → EmailVerification) (s : t.Store)
      → ((x : EmailVerification) → t.row key s ≡ some x → (f x).attempts ≤ cfg.max_attempts)
      → IsLimited s
      → IsLimited (t.update key f s).0
  unfolding IsLimited
  update-IsLimited key f s new old j v e =
      let hit = (t.update key f s).1 && (key == j) in
      changed-attempts f hit (t.row j s) v
        (λ x here h.
          let same : key ≡ j =
            (nat_eq.eqb_iff key j).0 (and_true (t.update key f s).1 (key == j) h).1 in
          new x (subst (λ k. t.row k s ≡ some x) (sym same) here))
        (λ x here. old j x here) (sym (t.update_row key f s j) ∙ e)

  given-IsLimited :
      (key : ℕ) (vid : String) (now : ℕ) (o : Option String) (s : t.Store)
      → IsLimited s
      → IsLimited (give_id tools cfg t order key vid now o s).0
  unfolding IsLimited
  given-IsLimited key vid now (some old) s v = v
  given-IsLimited key vid now none s v =
      update-IsLimited key (set_verified now vid) s (λ x here. v key x here) v

  check_row-IsLimited :
      (email code vid : String) (now : ℕ) (s : t.Store) (r : Found (ℕ × EmailVerification))
      → order.first_desc (λ v. v.created_at) (unconsumed_for email) s ≡ r
      → IsLimited s
      → IsLimited (check_row tools cfg t order code vid now r s).0
  unfolding IsLimited
  check_row-IsLimited email code vid now s missing q v = v
  check_row-IsLimited email code vid now s failed q v = v
  check_row-IsLimited email code vid now s (found (key, x)) q v =
      elim (Bool-cases (ltb x.expires_at now)) [
        | inl late ↦ rw (late, check_row) v
        | inr soon ↦ elim (Bool-cases (leb cfg.max_attempts x.attempts)) [
          | inl full ↦
              rw (soon, full, check_row)
                (update-IsLimited key (force_expire now) s (λ y here. v key y here) v)
          | inr free ↦ elim (Bool-cases (tools.sha256_hex code == x.code_hash)) [
            | inl right ↦
                rw (soon, free, right, check_row)
                  (given-IsLimited key vid now (nonempty (existing_id x)) s v)
            | inr wrong ↦
                rw (soon, free, wrong, check_row)
                  (update-IsLimited key (count_attempt x) s (λ y here. ground (arith, free)) v)
          ]
        ]
      ]

  placed-attempts :
      (hit : Bool) (r v : EmailVerification) (old : Option EmailVerification)
      → r.attempts ≤ cfg.max_attempts
      → ((x : EmailVerification) → old ≡ some x → x.attempts ≤ cfg.max_attempts)
      → (if hit then some r else old) ≡ some v
      → v.attempts ≤ cfg.max_attempts
  placed-attempts true r v old n h e =
      let q : r ≡ v = cc e in subst (λ y. y.attempts ≤ cfg.max_attempts) q n
  placed-attempts false r v old n h e = h v e

  created-IsLimited :
      (email code : String) (now : ℕ) (r : Created) (j : ℕ) (old : Option EmailVerification)
      (v : EmailVerification)
      → ((x : EmailVerification) → old ≡ some x → x.attempts ≤ cfg.max_attempts)
      → row_after_create r (new_row tools cfg t order email code now) j old ≡ some v
      → v.attempts ≤ cfg.max_attempts
  created-IsLimited email code now (created id) j old v h e =
      placed-attempts (id == j) (new_row tools cfg t order email code now) v old (ground arith) h e
  created-IsLimited email code now duplicate j old v h e = h v e
  created-IsLimited email code now not_created j old v h e = h v e

  inserted-IsLimited :
      (email code : String) (now : ℕ) (s : t.Store) (r : t.Store × Created)
      → t.create (new_row tools cfg t order email code now) s ≡ r
      → IsLimited s
      → IsLimited (inserted_and_sent tools cfg t order email code s r).0
  unfolding IsLimited
  inserted-IsLimited email code now s (s', duplicate) q v = v
  inserted-IsLimited email code now s (s', not_created) q v = v
  inserted-IsLimited email code now s (s', created id) q v =
      elim (Bool-cases (tools.send email code)) [
        | inr lost ↦ rw (lost, inserted_and_sent) v
        | inl sent ↦
            rw (sent, inserted_and_sent)
              (λ j x e.
                created-IsLimited email code now (created id) j (t.row j s) x (λ y here. v j y here)
                  (ap
                      (λ c.
                        row_after_create c (new_row tools cfg t order email code now) j (t.row j s))
                      (sym (ap (λ p. p.1) q))
                    ∙ sym (t.create_row (new_row tools cfg t order email code now) s j)
                    ∙ ap (λ p. t.row j p.0) q
                    ∙ e))
      ]

  swept-IsLimited :
      (email code : String) (now : ℕ) (r : t.Store × Bool)
      → IsLimited r.0
      → IsLimited (after_sweep tools cfg t order email code now r).0
  swept-IsLimited email code now (s, false) v = v
  swept-IsLimited email code now (s, true) v =
      let c : String = if cfg.fixed_code == "" then code else cfg.fixed_code in
      inserted-IsLimited email c now s (t.create (new_row tools cfg t order email c now) s) refl v

  sweep-IsLimited :
      (email code : String) (now : ℕ) (s : t.Store)
      → IsLimited s
      → IsLimited (sweep_and_send tools cfg t order email code now s).0
  unfolding IsLimited
  sweep-IsLimited email code now s v =
      swept-IsLimited email code now (order.delete_where (stale_for email now) s)
        (λ j x e. v j x (order.delete_where_row (stale_for email now) s j x e))

  cooled-IsLimited :
      (email code : String) (now : ℕ) (r : Found (ℕ × EmailVerification)) (s : t.Store)
      → IsLimited s
      → IsLimited (after_cooldown tools cfg t order email code now r s).0
  cooled-IsLimited email code now failed s v = v
  cooled-IsLimited email code now missing s v = sweep-IsLimited email code now s v
  cooled-IsLimited email code now (found (key, x)) s v =
      elim (Bool-cases (ltb (now - x.last_sent_at) cfg.resend_cooldown)) [
        | inl wait ↦ rw (wait, after_cooldown) v
        | inr ready ↦ rw (ready, after_cooldown) (sweep-IsLimited email code now s v)
      ]

  taken-IsLimited :
      {us : Type 0} (email code : String) (now : ℕ) (r : Found us) (s : t.Store)
      → IsLimited s
      → IsLimited (unless_taken tools cfg t order r email code now s).0
  taken-IsLimited email code now (found u) s v = v
  taken-IsLimited email code now failed s v = v
  taken-IsLimited email code now missing s v =
      cooled-IsLimited email code now
        (order.first_desc (λ x. x.last_sent_at) (live_for email now) s) s v

  send_code-IsLimited :
      (users : Table User) (us : users.Store) (raw code : String) (now : ℕ) (s : t.Store)
      → IsLimited s
      → IsLimited (send_code tools cfg t order users us raw code now s).0
  unfolding send_code
  send_code-IsLimited users us raw code now s v =
      let email : String = normalize_email tools raw in
      elim (Bool-cases (validate_email_format tools email)) [
        | inr bad ↦ rw (bad, send_code) v
        | inl good ↦
            rw (good, send_code)
              (taken-IsLimited email code now (users.find (has_email email) us) s v)
      ]

  kept :
      (hit : Bool) (old : Option EmailVerification) (v : EmailVerification)
      → (if hit then none else old) ≡ some v
      → old ≡ some v
  kept true old v e = absurd (cc)
  kept false old v e = e

  consumed-IsLimited :
      (r : Found (ℕ × EmailVerification)) (s : t.Store)
      → IsLimited s
      → IsLimited (consume_row t r s).0
  unfolding IsLimited
  consumed-IsLimited missing s v = v
  consumed-IsLimited failed s v = v
  consumed-IsLimited (found (key, x)) s v = λ j y e.
      v j y (kept ((t.delete key s).1 && (key == j)) (t.row j s) y (sym (t.delete_row key s j) ∙ e))

  consume-IsLimited :
      (vid : String) (now : ℕ) (s : t.Store)
      → IsLimited s
      → IsLimited (consume_verification t vid now s).0
  unfolding consume_verification
  consume-IsLimited vid now s v = elim (Bool-cases (vid == "")) [
    | inl no_id ↦ rw (no_id, consume_verification) v
    | inr given ↦
        rw (given, consume_verification) (consumed-IsLimited (t.find (usable vid now) s) s v)
  ]

-- The operations of the service, with the random values that they draw.
pub data Call : Type 0 where
  sending : String → String → ℕ → Call
  verifying : String → String → String → ℕ → Call
  consuming : String → ℕ → Call

module _ (tools : EmailTools) (cfg : EmailVerificationConfig) (t : Table EmailVerification)
    (order : Ordered t) (users : Table User) (us : users.Store) where
  unfoldable pub call : Call → t.Store → t.Store
  call (sending raw code now) s = (send_code tools cfg t order users us raw code now s).0
  call (verifying raw code vid now) s = (verify_code tools cfg t order raw code vid now s).0
  call (consuming vid now) s = (consume_verification t vid now s).0

  unfoldable pub calls : List Call → t.Store → t.Store
  calls [] s = s
  calls (c ∷ cs) s = calls cs (call c s)

  call-IsLimited :
      (c : Call) (s : t.Store)
      → IsLimited tools cfg t order s
      → IsLimited tools cfg t order (call c s)
  unfolding call verify_code
  call-IsLimited (sending raw code now) s v =
      send_code-IsLimited tools cfg t order users us raw code now s v
  call-IsLimited (verifying raw code vid now) s v =
      let email : String = normalize_email tools raw in
      check_row-IsLimited tools cfg t order email code vid now s
        (order.first_desc (λ x. x.created_at) (unconsumed_for email) s) refl v
  call-IsLimited (consuming vid now) s v = consume-IsLimited tools cfg t order vid now s v

  -- Over any sequence of sending, verifying and consuming, with any failures of the table and of the
  -- sender, if no stored row has more attempts than are allowed, then none ever has.
  pub calls-IsLimited :
      (cs : List Call) (s : t.Store)
      → IsLimited tools cfg t order s
      → IsLimited tools cfg t order (calls cs s)
  unfolding calls
  calls-IsLimited [] s v = v
  calls-IsLimited (c ∷ cs) s v = calls-IsLimited cs (call c s) (call-IsLimited c s v)
