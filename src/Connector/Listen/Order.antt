-- ===== src/Connector/Listen/Order.antt =====
-- Nothing is committed that was not published.
use nats_kafka.Base.{ℕ, List, [], ◌∷◌, ◌++◌, ◌≡◌, refl, Bool-cases, inl, inr}
use nats_kafka.Base.Outcome.{Error, Outcome-cases}
use nats_kafka.Stats.Float.{FloatOps}
use nats_kafka.Bridge.Cells.{Cells}
use nats_kafka.Kafka.{Message}
use nats_kafka.Connector.{Connector}
use nats_kafka.Connector.Listen.{Bus, Action, Fetched, in_group, handler, listener_callback, listen}

-- Each commit stands right behind the publication of the same message.
pub IsOrdered : List Action → Type 0
IsOrdered [] = Unit {0}
IsOrdered (Action.committed m ∷ rest) = ⊥
IsOrdered (Action.reported e ∷ rest) = IsOrdered rest
IsOrdered (Action.published m ∷ []) = Unit {0}
IsOrdered (Action.published m ∷ Action.committed m' ∷ rest) = (m' ≡ m) × IsOrdered rest
IsOrdered (Action.published m ∷ Action.published m' ∷ rest) = IsOrdered (Action.published m' ∷ rest)
IsOrdered (Action.published m ∷ Action.reported e ∷ rest) = IsOrdered rest

published-IsOrdered :
    (m : Message) (xs : List Action) → IsOrdered xs → IsOrdered (Action.published m ∷ xs)
unfolding IsOrdered
published-IsOrdered m [] h = tt
published-IsOrdered m (Action.committed m' ∷ xs) h = elim h [ ]
published-IsOrdered m (Action.reported e ∷ xs) h = h
published-IsOrdered m (Action.published m' ∷ xs) h = h

-- The four forms of what one callback does.
data Turn : List Action → Type 0 where
  nothing : Turn []
  publish_only : (m : Message) → Turn (Action.published m ∷ [])
  publish_report : (m : Message) (e : Error) → Turn (Action.published m ∷ Action.reported e ∷ [])
  publish_commit : (m : Message) → Turn (Action.published m ∷ Action.committed m ∷ [])

Turn-IsOrdered : (xs ys : List Action) → Turn xs → IsOrdered ys → IsOrdered (xs ++ ys)
unfolding IsOrdered
Turn-IsOrdered _ ys nothing h = h
Turn-IsOrdered _ ys (publish_only m) h = published-IsOrdered m ys h
Turn-IsOrdered _ ys (publish_report m e) h = h
Turn-IsOrdered _ ys (publish_commit m) h = (refl, h)

Turn-IsOrdered_alone : (xs : List Action) → Turn xs → IsOrdered xs
unfolding IsOrdered
Turn-IsOrdered_alone _ nothing = tt
Turn-IsOrdered_alone _ (publish_only m) = tt
Turn-IsOrdered_alone _ (publish_report m e) = tt
Turn-IsOrdered_alone _ (publish_commit m) = (refl, tt)

module _ (f : FloatOps) (k : Bus) where
  listener_callback-Turn :
      (s : Cells) (m : Message) (ns : ℕ) (c : Connector) → Turn (listener_callback f k s m ns c).1
  unfolding listener_callback
  listener_callback-Turn s m ns c = elim (Outcome-cases (handler k s c m)) [
    | inr (inl (e, refused)) ↦ rw (refused, listener_callback) nothing
    | inr (inr crashed) ↦ rw (crashed, listener_callback) nothing
    | inl (u, sent) ↦ elim (Bool-cases (in_group c)) [
      | inr alone ↦ rw (sent, listener_callback, alone) (publish_only m)
      | inl group ↦ elim (Outcome-cases (k.commit m)) [
        | inl (v, done) ↦ rw (sent, listener_callback, group, done) (publish_commit m)
        | inr (inl (e, refused)) ↦ rw (sent, listener_callback, group, refused) (publish_report m e)
        | inr (inr crashed) ↦ rw (sent, listener_callback, group, crashed) (publish_only m)
      ]
    ]
  ]

  -- Whatever the listener fetches, a message is committed to Kafka only after it was published to NATS,
  -- and right after it, before the next message is looked at.
  pub listen-IsOrdered : (xs : List Fetched) (c : Connector) → IsOrdered (listen f k xs c).1
  unfolding listen IsOrdered
  listen-IsOrdered [] c = tt
  listen-IsOrdered (Fetched.cancelled ∷ xs) c = tt
  listen-IsOrdered (Fetched.failed e ∷ xs) c = tt
  listen-IsOrdered (Fetched.got m s ns done ∷ xs) c =
      let turn = listener_callback-Turn s m ns c in
      let alone = Turn-IsOrdered_alone (listener_callback f k s m ns c).1 turn in
      elim (Outcome-cases (listener_callback f k s m ns c).0) [
        | inr (inl (e, refused)) ↦ rw (refused, listen) alone
        | inr (inr crashed) ↦ rw (crashed, listen) alone
        | inl (c', went_on) ↦
            let rest = listen-IsOrdered xs c' in
            elim (Bool-cases done) [
              | inl closed ↦ rw (went_on, listen, closed) alone
              | inr open_still ↦
                  rw (went_on, listen, open_still)
                    (Turn-IsOrdered (listener_callback f k s m ns c).1 (listen f k xs c').1 turn
                      rest)
            ]
      ]
