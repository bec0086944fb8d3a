-- ===== src/Bus/Scope.antt =====
-- libs/bus/client.py, ScopedPublisher: what a publisher can put on the broker.
use pi_news_aggregator.Prelude.{
  ◌≤◌, true, false, ltb, ◌≡◌, refl, ◌⊎◌, inl, inr, List, [], ◌∷◌, ◌++◌, Text, In, In-append, In-one,
  length, starts_with, nat_eq, Bool-cases, arith,
}
use package.pi_news_aggregator.Bus.{
  Bytes, ScopedPublisher, Published, sent, permission_error, value_error, broker_error, Log, Reply,
  acked, unacked, unstored, deliver, publish,
}

-- A message that the publisher may send.
pub record Scoped (pub' : ScopedPublisher) (entry : Text × Bytes) : Type 0 where
  pub prefixed : starts_with entry.0 pub'.prefix ≡ true
  pub bounded : length entry.1 ≤ pub'.max_bytes

-- What one call did.
pub data Publishes (pub' : ScopedPublisher) (reply : Reply) (subject : Text) (payload : Bytes)
    (log : Log) : Published × Log → Type 0 where
  sending :
      Scoped pub' (subject, payload)
      → reply ≡ acked
      → Publishes pub' reply subject payload log (sent, log ++ (subject, payload) ∷ [])
  unknown :
      Scoped pub' (subject, payload)
      → reply ≡ unacked
      → Publishes pub' reply subject payload log (broker_error, log ++ (subject, payload) ∷ [])
  lost :
      Scoped pub' (subject, payload)
      → reply ≡ unstored
      → Publishes pub' reply subject payload log (broker_error, log)
  oversized :
      starts_with subject pub'.prefix ≡ true
      → ltb pub'.max_bytes (length payload) ≡ true
      → Publishes pub' reply subject payload log (value_error, log)
  outside :
      starts_with subject pub'.prefix ≡ false
      → Publishes pub' reply subject payload log (permission_error, log)

deliver-Publishes :
    (pub' : ScopedPublisher) (reply : Reply) (subject : Text) (payload : Bytes) (log : Log)
    → Scoped pub' (subject, payload)
    → Publishes pub' reply subject payload log (deliver reply (subject, payload) log)
unfolding deliver
deliver-Publishes pub' acked subject payload log scoped = sending scoped refl
deliver-Publishes pub' unacked subject payload log scoped = unknown scoped refl
deliver-Publishes pub' unstored subject payload log scoped = lost scoped refl

-- A message goes to the broker exactly if its subject begins with the publisher's prefix, its
-- payload is within the cap and the broker stores it. The call returns if the broker acknowledges
-- too; otherwise it raises the error of the first of these that fails.
pub publish-Publishes :
    (pub' : ScopedPublisher) (reply : Reply) (subject : Text) (payload : Bytes) (log : Log)
    → Publishes pub' reply subject payload log (publish pub' reply subject payload log)
unfolding publish
publish-Publishes pub' reply subject payload log =
    elim (Bool-cases (starts_with subject pub'.prefix)) [
      | inr f ↦ rw f (outside f)
      | inl t ↦ rw t (elim (Bool-cases (ltb pub'.max_bytes (length payload))) [
        | inl big ↦ rw big (oversized t big)
        | inr small ↦
            let scoped : Scoped pub' (subject, payload) = record {
              prefixed = t;
              bounded = ground (arith, small);
            } in
            rw small (deliver-Publishes pub' reply subject payload log scoped)
      ])
    ]

-- Calls one after the other, each with its subject, its payload and the broker's answer.
unfoldable pub publish_all : ScopedPublisher → List (Text × Bytes × Reply) → Log → Log
unfolding publish
publish_all pub' [] log = log
publish_all pub' ((subject, payload, reply) ∷ calls) log =
    publish_all pub' calls (publish pub' reply subject payload log).1

logged-In :
    {pub' : ScopedPublisher} {reply : Reply} {subject : Text} {payload : Bytes} {log : Log}
    {after : Published × Log}
    → Publishes pub' reply subject payload log after
    → (entry : Text × Bytes) → In entry after.1
    → In entry log ⊎ Scoped pub' entry
logged-In {log = log} (sending scoped q) entry m = elim (In-append log _ m) [
  | inl old ↦ inl old
  | inr new ↦ inr (rw (In-one new) scoped)
]
logged-In {log = log} (unknown scoped q) entry m = elim (In-append log _ m) [
  | inl old ↦ inl old
  | inr new ↦ inr (rw (In-one new) scoped)
]
logged-In (lost scoped q) entry m = inl m
logged-In (oversized p q) entry m = inl m
logged-In (outside p) entry m = inl m

-- Whatever calls a component makes, and however the broker answers, each message that they add to
-- the broker lies under the component's prefix and within its cap.
pub publish_all-Scoped :
    (pub' : ScopedPublisher) (calls : List (Text × Bytes × Reply)) (log : Log)
    (entry : Text × Bytes)
    → In entry (publish_all pub' calls log)
    → In entry log ⊎ Scoped pub' entry
unfolding publish_all
publish_all-Scoped pub' [] log entry m = inl m
publish_all-Scoped pub' ((subject, payload, reply) ∷ calls) log entry m =
    elim (publish_all-Scoped pub' calls (publish pub' reply subject payload log).1 entry m) [
      | inr scoped ↦ inr scoped
      | inl old ↦ logged-In (publish-Publishes pub' reply subject payload log) entry old
    ]
