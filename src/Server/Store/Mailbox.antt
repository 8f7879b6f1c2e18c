-- ===== src/Server/Store/Mailbox.antt =====
-- A user's queue: what goes in comes out once, in the order of its timestamps, and nobody else's
-- queue is touched.
use mathlib.Core.List.{Perm}
use parda.Base.{
  ◌≡◌, refl, ◌≢◌, ap, Bool, true, false, none, some, List, [], ◌∷◌, ◌++◌, arith, String, not, inl,
  inr, ◌⊎◌, string_key, eq_iff, keep_if,
}
use parda.Sorting.{sort_by, sort_by-Ascending, sort_by-perm, Ascending}
use parda.Server.Store.{
  RelayStore, MessageRow, StoredEnvelope, enqueue, queue_of, drain, delete_message, is_for, has_id,
  envelopes_of, created_order, is_message,
}

pub keep_if-idle {ℓ} :
    {A : Type ℓ} (p q : A → Bool) (xs : List A)
    → ((a : A) → p a ≡ true → q a ≡ true)
    → keep_if p (keep_if q xs) ≡ keep_if p xs
keep_if-idle p q [] h = refl
keep_if-idle p q (x ∷ xs) h = ground (arith, h x, keep_if-idle p q xs h)

pub keep_if-none {ℓ} :
    {A : Type ℓ} (p q : A → Bool) (xs : List A)
    → ((a : A) → p a ≡ true → q a ≡ false)
    → keep_if p (keep_if q xs) ≡ []
keep_if-none p q [] h = refl
keep_if-none p q (x ∷ xs) h = ground (arith, h x, keep_if-none p q xs h)

-- Fetching returns exactly the user's messages, by ascending timestamp as a signed integer, and
-- takes them away: a second fetch is empty, and every other user's queue is what it was.
pub drain_lem :
    (user other : String) (s : RelayStore)
    → let (envelopes, s') = drain user s in
      (envelopes ≡ envelopes_of (queue_of user s))
      × Perm (queue_of user s) (keep_if (is_for user) s.messages)
      × Ascending created_order (queue_of user s)
      × (queue_of user s' ≡ [])
      × (user ≢ other → queue_of other s' ≡ queue_of other s)
unfolding drain queue_of
drain_lem user other s = (
  refl,
  sort_by-perm created_order _,
  sort_by-Ascending created_order (keep_if (is_for user) s.messages),
  ap (sort_by created_order)
      (keep_if-none (is_for user) (λ r. not (is_for user r)) s.messages (λ r h. ground arith)),
  λ ne. ap (sort_by created_order) (
      keep_if-idle (is_for other) (λ r. not (is_for user r)) s.messages
        (λ r h. ground (arith, eq_iff r.recipient_id user, eq_iff r.recipient_id other))),
)

keep_if-all {ℓ} :
    {A : Type ℓ} (p q : A → Bool) (xs : List A)
    → ((a : A) → p a ≡ false → q a ≡ true)
    → keep_if p xs ≡ []
    → keep_if q xs ≡ xs
keep_if-all p q [] h none_p = refl
keep_if-all p q (x ∷ xs) h none_p = ground (arith, h x, keep_if-all p q xs h)

pub keep_if-append {ℓ} :
    {A : Type ℓ} (p : A → Bool) (xs ys : List A)
    → keep_if p (xs ++ ys) ≡ keep_if p xs ++ keep_if p ys
keep_if-append p [] ys = refl
keep_if-append p (x ∷ xs) ys = ground (arith, keep_if-append p xs ys)

-- A filter by a stronger test keeps nothing where the weaker one keeps nothing.
keep_if-stronger {ℓ} :
    {A : Type ℓ} (p q : A → Bool) (xs : List A)
    → ((a : A) → p a ≡ false → q a ≡ false)
    → keep_if p xs ≡ []
    → keep_if q xs ≡ []
keep_if-stronger p q [] h none_p = refl
keep_if-stronger p q (x ∷ xs) h none_p = ground (arith, h x, keep_if-stronger p q xs h)

append_nil : (rows : List MessageRow) → rows ++ [] ≡ rows
append_nil [] = refl
append_nil (r ∷ rows) = ap (λ rs. r ∷ rs) (append_nil rows)

pub List-cases {ℓ} :
    {A : Type ℓ} (xs : List A) → (xs ≡ []) ⊎ ((y : A) × (ys : List A) × (xs ≡ y ∷ ys))
List-cases [] = inl refl
List-cases (y ∷ ys) = inr (y, ys, refl)

-- The rows with the primary key `id`.
abbrev pub rows_with_id : String → RelayStore → List MessageRow
rows_with_id id s = keep_if (has_id id) s.messages

-- Queuing under a message id that is taken fails; under a fresh id it succeeds, and deleting the
-- message again reports success and restores the store, while a second deletion reports that
-- there is nothing to delete and changes nothing.
pub delete_message-enqueue :
    (user : String) (envelope : StoredEnvelope) (s : RelayStore)
    → (rows_with_id envelope.id s ≢ [] → enqueue user envelope s ≡ none)
      × (rows_with_id envelope.id s ≡ []
          → (s' : RelayStore) × (enqueue user envelope s ≡ some s')
            × (delete_message user envelope.id s' ≡ (true, s))
            × (delete_message user envelope.id s ≡ (false, s)))
unfolding enqueue delete_message
delete_message-enqueue user envelope s =
    let row : MessageRow = record { recipient_id = user; stored = envelope } in
    let is_it = is_message user envelope.id in
    let others = λ (r : MessageRow). not (is_it r) in
    (
      λ taken. elim (List-cases (rows_with_id envelope.id s)) [
        | inl fresh ↦ elim (taken fresh) [ ]
        | inr (r, rows, found) ↦ rw (enqueue, found) refl
      ],
      λ fresh.
          let unseen =
            keep_if-stronger (has_id envelope.id) is_it s.messages (λ r h. ground arith) fresh in
          let kept =
            keep_if-all (has_id envelope.id) others s.messages (λ r h. ground arith) fresh in
          (
            record s { messages = s.messages ++ row ∷ [] },
            rw (enqueue, fresh) refl,
            ground (
              arith,
              unseen,
              kept,
              keep_if-append is_it s.messages (row ∷ []),
              keep_if-append others s.messages (row ∷ []),
              append_nil s.messages,
              eq_iff user user,
              eq_iff envelope.id envelope.id,
            ),
            ground (arith, unseen, kept),
          ),
    )
