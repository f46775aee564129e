-- ===== src/Desktop/Mailbox/Log.antt =====
-- What the queue of crates/rds-desktop/src/mailbox.rs promises: it is a log of everything sent, and a
-- cursor into it that a send moves only when the reader is a whole capacity behind.
use remote_device_sync.Base.{
  ℕ, zero, suc, ◌+◌, ◌-◌, ◌≤◌, ◌<◌, ◌≡◌, refl, ap, ◌∙◌, List, [], ◌∷◌, ◌++◌, Option, none, leb,
  if◌then◌else◌, length, length-append, drop, get_elem?, max, arith,
}
use remote_device_sync.Desktop.Mailbox.{Queue, channel, front, rest, try_recv, send}

-- The abstract view: all items sent, oldest first, and how many of them are gone.
pub record Log {ℓ} (A : Type ℓ) : Type ℓ where
  pub sent : List A
  pub gone : ℕ

pub data Op {ℓ} (A : Type ℓ) : Type ℓ where
  put : A → Op A
  take : Op A

module _ {ℓ} {A : Type ℓ} where
  -- The next item, if there is one, is gone.
  unfoldable pub advance : Log A → Log A × Option A
  advance l = (
    record l { gone = if leb (length l.sent) l.gone then l.gone else l.gone + 1 },
    get_elem? l.sent l.gone,
  )

  -- An operation on the log, with what it takes out.
  unfoldable pub apply : ℕ → Op A → Log A → Log A × Option A
  apply capacity take l = advance l
  apply capacity (put x) l =
      if leb capacity (length l.sent - l.gone)
      then (record { sent = l.sent ++ (x ∷ []); gone = l.gone + 1 }, get_elem? l.sent l.gone)
      else (record { sent = l.sent ++ (x ∷ []); gone = l.gone }, none)

  -- The same operation on the queue.
  unfoldable pub step : Op A → Queue A → Queue A × Option A
  step take q = try_recv q
  step (put x) q = send x q

  -- What the operations give out, one after the other.
  unfoldable pub log_outputs : ℕ → List (Op A) → Log A → List (Option A)
  log_outputs capacity [] l = []
  log_outputs capacity (o ∷ os) l =
      let (l', out) = apply capacity o l in out ∷ log_outputs capacity os l'

  unfoldable pub outputs : List (Op A) → Queue A → List (Option A)
  outputs [] q = []
  outputs (o ∷ os) q = let (q', out) = step o q in out ∷ outputs os q'

  -- The queue holds what of the log is not gone.
  record Views (q : Queue A) (l : Log A) : Type ℓ where
    held : q.items ≡ drop l.gone l.sent
    within : l.gone ≤ length l.sent
    positive : 0 < q.capacity

  front-drop : (n : ℕ) (xs : List A) → front (drop n xs) ≡ get_elem? xs n
  front-drop zero [] = refl
  front-drop zero (x ∷ xs) = refl
  front-drop (suc n) [] = refl
  front-drop (suc n) (x ∷ xs) = front-drop n xs

  rest-drop : (n : ℕ) (xs : List A) → rest (drop n xs) ≡ drop (suc n) xs
  rest-drop zero [] = refl
  rest-drop zero (x ∷ xs) = refl
  rest-drop (suc n) [] = refl
  rest-drop (suc n) (x ∷ xs) = rest-drop n xs

  length-drop : (n : ℕ) (xs : List A) → length (drop n xs) ≡ length xs - n
  length-drop zero xs = omega arith
  length-drop (suc n) [] = omega arith
  length-drop (suc n) (x ∷ xs) = omega (arith, length-drop n xs)

  drop-append : (n : ℕ) (xs ys : List A) → n ≤ length xs → drop n (xs ++ ys) ≡ drop n xs ++ ys
  drop-append zero xs ys h = refl
  drop-append (suc n) [] ys h = absurd (omega arith)
  drop-append (suc n) (x ∷ xs) ys h = drop-append n xs ys (omega arith)

  drop-all : (n : ℕ) (xs : List A) → length xs ≤ n → drop n xs ≡ []
  drop-all zero [] h = refl
  drop-all zero (x ∷ xs) h = absurd (omega arith)
  drop-all (suc n) [] h = refl
  drop-all (suc n) (x ∷ xs) h = drop-all n xs (omega arith)

  step-Views :
      (o : Op A) (q : Queue A) (l : Log A)
      → Views q l
      → ((step o q).1 ≡ (apply q.capacity o l).1)
        × Views (step o q).0 (apply q.capacity o l).0
        × ((step o q).0.capacity ≡ q.capacity)
  unfolding step apply advance try_recv send
  step-Views take q l v = (
    ground (arith, v.held, front-drop l.gone l.sent),
    record {
      held = ground (arith, v.held, rest-drop l.gone l.sent, drop-all l.gone l.sent);
      within = ground (arith, v.within);
      positive = v.positive;
    },
    refl,
  )
  step-Views (put x) q l v = (
    ground (arith, v.held, front-drop l.gone l.sent, length-drop l.gone l.sent),
    record {
      held = ground (
        arith,
        v.held,
        rest-drop l.gone l.sent,
        drop-append l.gone l.sent (x ∷ []) v.within,
        drop-append (suc l.gone) l.sent (x ∷ []),
        length-drop l.gone l.sent,
      );
      within = ground (arith, v.within, v.positive, length-append l.sent (x ∷ []));
      positive = ground (arith, v.positive);
    },
    ground arith,
  )

  outputs-Views :
      (os : List (Op A)) (q : Queue A) (l : Log A)
      → Views q l
      → outputs os q ≡ log_outputs q.capacity os l
  unfolding outputs log_outputs
  outputs-Views [] q l v = refl
  outputs-Views (o ∷ os) q l v =
      let (e, v', c) = step-Views o q l v in
      let q' = (step o q).0 in
      let l' = (apply q.capacity o l).0 in
      ap (λ out. out ∷ outputs os q') e
      ∙ ap (λ later. (apply q.capacity o l).1 ∷ later)
          (outputs-Views os q' l' v' ∙ ap (λ capacity. log_outputs capacity os l') c)

  -- In every sequence of sends and receives, what a new queue evicts and hands out is what the log
  -- with a cursor gives: the items in the order sent, none twice, and none skipped but the oldest one
  -- that the reader has not taken when a send finds the reader `max capacity 1` items behind.
  pub outputs-log_outputs :
      (capacity : ℕ) (os : List (Op A))
      → outputs os (channel capacity)
        ≡ log_outputs (max capacity 1) os (record { sent = []; gone = 0 })
  unfolding channel
  outputs-log_outputs capacity os =
      outputs-Views os (channel capacity) (record { sent = []; gone = 0 })
        (record { held = refl; within = omega arith; positive = omega arith })
