-- ===== src/Slowlog/Laws.antt =====
-- The bounded log keeps the latest entries of the unbounded one.
use zero_frameworks.Base.{
  ℕ, zero, suc, ◌-◌, ◌≤◌, ◌<◌, ◌≡◌, ◌∙◌, ap, refl, List, [], ◌∷◌, ◌++◌, if◌then◌else◌, ltb, length,
  drop, length-append, length-drop, arith, Bool-cases, inl, inr,
}
use zero_frameworks.Base.Bytes.{Bytes}
use zero_frameworks.Base.Int.{ℤ}
use zero_frameworks.Resp.{RespValue}
use zero_frameworks.Slowlog.{SlowlogEntry, Slowlog, record_command, args_from_request}

-- The arguments of a call of `record`, and the time.
pub record Call : Type 0 where
  pub now : ℤ
  pub client_id : ℤ
  pub client_addr : Bytes
  pub request : RespValue
  pub duration_us : ℤ

unfoldable pub record_all : Slowlog → List Call → Slowlog
unfolding record_command
record_all log [] = log
record_all log (c ∷ calls) =
    record_all (record_command log c.now c.client_id c.client_addr c.request c.duration_us) calls

abbrev pub last_of {ℓ} : {A : Type ℓ} → ℕ → List A → List A
last_of n xs = drop (length xs - n) xs

module _ {ℓ} {A : Type ℓ} where
  drop-append : (n : ℕ) (xs ys : List A) → n ≤ length xs → drop n (xs ++ ys) ≡ drop n xs ++ ys
  drop-append zero xs ys h = refl
  drop-append (suc n) [] ys h = absurd (omega (arith, h))
  drop-append (suc n) (x ∷ xs) ys h = drop-append n xs ys (omega (arith, h))

  drop-drop : (n : ℕ) (xs : List A) → drop 1 (drop n xs) ≡ drop (suc n) xs
  drop-drop zero xs = refl
  drop-drop (suc n) [] = refl
  drop-drop (suc n) (x ∷ xs) = drop-drop n xs

  -- Pushing one element on the latest ones.
  last_of-push :
      (n : ℕ) (xs : List A) (x : A)
      → 0 < n
      → (if ltb n (length (last_of n xs ++ x ∷ []))
          then drop 1 (last_of n xs ++ x ∷ [])
          else last_of n xs ++ x ∷ [])
        ≡ last_of n (xs ++ x ∷ [])
  last_of-push n xs x h = elim (Bool-cases (ltb (length xs) n)) [
    | inl room ↦
        let before : last_of n xs ≡ xs = ap (λ k. drop k xs) {y = 0} (ground (arith, room)) in
        let after : last_of n (xs ++ x ∷ []) ≡ xs ++ x ∷ [] =
          ap (λ k. drop k (xs ++ x ∷ [])) {y = 0}
            (ground (arith, room, length-append xs (x ∷ []))) in
        ground (arith, room, before, after, length-append xs (x ∷ []))
    | inr full ↦
        let start = length xs - n in
        let enough : n ≤ length xs = ground (arith, full) in
        let whole = length-append (last_of n xs) (x ∷ []) in
        let shifted : drop 1 (last_of n xs ++ x ∷ []) ≡ drop (suc start) xs ++ x ∷ [] =
          drop-append 1 (last_of n xs) (x ∷ []) (omega (arith, length-drop start xs, h, enough))
          ∙ ap (λ ys. ys ++ x ∷ []) (drop-drop start xs) in
        let after : last_of n (xs ++ x ∷ []) ≡ drop (suc start) xs ++ x ∷ [] =
          ap (λ k. drop k (xs ++ x ∷ [])) {y = suc start}
            (omega (arith, length-append xs (x ∷ []), enough))
          ∙ drop-append (suc start) xs (x ∷ []) (omega (arith, h, enough)) in
        ground (arith, shifted, after, whole, length-drop start xs, enough)
  ]

-- A log with a limit that holds the latest entries of another one.
unfoldable pub bounded : ℕ → Slowlog → Slowlog
bounded n log = record log { max_len = n; entries = last_of n log.entries }

record_command-bounded :
    (n : ℕ) (log : Slowlog) (now client_id : ℤ) (client_addr : Bytes) (request : RespValue)
    (duration_us : ℤ)
    → 0 < n
    → log.max_len ≡ 0
    → record_command (bounded n log) now client_id client_addr request duration_us
      ≡ bounded n (record_command log now client_id client_addr request duration_us)
unfolding record_command bounded
record_command-bounded n log now client_id client_addr request duration_us h unlimited =
    let entry : SlowlogEntry = record {
      id = log.next_id;
      timestamp_ms = now;
      duration_us = duration_us;
      args = args_from_request request;
      client_id = client_id;
      client_addr = client_addr;
    } in
    ground (arith, h, unlimited, last_of-push n log.entries entry h)

max_len-record_command :
    (log : Slowlog) (now client_id : ℤ) (client_addr : Bytes) (request : RespValue)
    (duration_us : ℤ)
    → (record_command log now client_id client_addr request duration_us).max_len ≡ log.max_len
unfolding record_command
max_len-record_command log now client_id client_addr request duration_us = ground arith

-- A log with a length limit and one without, given the same commands, differ in that the first holds
-- the latest entries of the second, as many as its limit allows. The second starts with the limit 0,
-- which is none, the first with the latest entries of the second.
pub record_all-bounded :
    (n : ℕ) (log : Slowlog) (calls : List Call)
    → 0 < n
    → log.max_len ≡ 0
    → record_all (bounded n log) calls ≡ bounded n (record_all log calls)
unfolding record_all
record_all-bounded n log [] h unlimited = refl
record_all-bounded n log (c ∷ calls) h unlimited =
    ap (λ log'. record_all log' calls)
      (record_command-bounded n log c.now c.client_id c.client_addr c.request c.duration_us h
        unlimited)
    ∙ record_all-bounded n
        (record_command log c.now c.client_id c.client_addr c.request c.duration_us) calls h
        (max_len-record_command log c.now c.client_id c.client_addr c.request c.duration_us
          ∙ unlimited)
