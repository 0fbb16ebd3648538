-- ===== src/Kafka/Client/Consumer/Laws.antt =====
-- Opening and closing a consumer, and what is fetched and committed.
use nats_kafka.Base.{
  ℕ, Bool, true, false, List, [], ◌∷◌, ◌≡◌, ◌≢◌, refl, sym, ap, ◌∙◌, Bool-cases, inl, inr, ◌⊎◌,
}
use nats_kafka.Base.Int.{ℤ}
use nats_kafka.Base.Outcome.{
  Outcome, ok, fail, panic, ◌>>=◌, >>=-eq-ok, ok_inj, Outcome-cases, is_ok,
}
use nats_kafka.Conf.{ConnectorConfig}
use nats_kafka.Conf.Tls.{Files}
use nats_kafka.Conf.Parse.{signed}
use nats_kafka.Kafka.Client.{SaramaConfig, consumer_config}
use nats_kafka.Kafka.Client.Consumer.{
  Sarama, Client, Consumer, is_group, open_partition, open_single, open_group, open_client,
  new_consumer, group_mode, close,
}

-- The clients of a consumer, the last one first.
pub clients : Client → List ℕ
clients (Client.group cg) = cg ∷ []
clients (Client.single c pc) = pc ∷ c ∷ []

pub is_group_client : Client → Bool
is_group_client (Client.group cg) = true
is_group_client (Client.single c pc) = false

-- What was opened is what the consumer has, in the mode that was asked for.
IsOpened : Bool → Outcome Client × List ℕ → Type 0
IsOpened in_group r = (x : Client) → r.0 ≡ ok x → (r.1 ≡ clients x) × (is_group_client x ≡ in_group)

open_partition-IsOpened :
    (k : Sarama) (c : ConnectorConfig) (n : ℕ) (r : Outcome ℕ)
    → IsOpened false (open_partition k c n r)
unfolding open_partition clients is_group_client IsOpened
open_partition-IsOpened k c n (ok p) x h =
    (ap clients (ok_inj h), ap is_group_client (sym (ok_inj h)))
open_partition-IsOpened k c n (fail e) x h = cc
open_partition-IsOpened k c n panic x h = cc

open_single-IsOpened :
    (k : Sarama) (c : ConnectorConfig) (r : Outcome ℕ) → IsOpened false (open_single k c r)
unfolding open_single IsOpened
open_single-IsOpened k c (ok n) x h =
    open_partition-IsOpened k c n (k.consume_partition n c.topic (signed 32 c.partition)) x h
open_single-IsOpened k c (fail e) x h = cc
open_single-IsOpened k c panic x h = cc

open_group-IsOpened : (r : Outcome ℕ) → IsOpened true (open_group r)
unfolding open_group clients is_group_client IsOpened
open_group-IsOpened (ok n) x h = (ap clients (ok_inj h), ap is_group_client (sym (ok_inj h)))
open_group-IsOpened (fail e) x h = cc
open_group-IsOpened panic x h = cc

open_client-IsOpened :
    (k : Sarama) (c : ConnectorConfig) (config : SaramaConfig)
    → IsOpened (is_group c) (open_client k c config)
unfolding open_client
open_client-IsOpened k c config = elim (Bool-cases (is_group c)) [
  | inl grouped ↦
      rw grouped (open_group-IsOpened (k.new_consumer_group c.brokers c.group_id config))
  | inr single ↦ rw single (open_single-IsOpened k c (k.new_consumer c.brokers config))
]

-- What `Close` closes, unless a call panics.
close_clients :
    (closes : ℕ → Outcome (Unit {0})) (s : Consumer)
    → ((n : ℕ) → closes n ≢ panic)
    → (close closes s).1 ≡ clients s.client
unfolding close clients
close_clients closes s calm =
    elim s.client as (λ x. (close closes (record s { client = x })).1 ≡ clients x) [
      | Client.group cg ↦ refl
      | Client.single c pc ↦ elim (Outcome-cases (closes pc)) [
        | inl (u, e) ↦ rw (e, close) refl
        | inr (inl (err, e)) ↦ rw (e, close) refl
        | inr (inr e) ↦ elim (calm pc e) [ ]
      ]
    ]

-- A consumer that was made is in group mode exactly if a group is configured, and `Close` closes every
-- client that `NewConsumer` opened, whatever errors closing them gives, as long as it does not panic.
pub close-new_consumer :
    (f : Files) (k : Sarama) (c : ConnectorConfig) (timeout : ℤ) (s : Consumer)
    (closes : ℕ → Outcome (Unit {0}))
    → (new_consumer f k c timeout).0 ≡ ok s
    → ((n : ℕ) → closes n ≢ panic)
    → ((close closes s).1 ≡ (new_consumer f k c timeout).1) × (group_mode s ≡ is_group c)
unfolding new_consumer group_mode is_group_client IsOpened
close-new_consumer f k c timeout s closes h calm =
    let config : SaramaConfig = consumer_config f k.new_config c timeout in
    let (x, opened, same) = >>=-eq-ok (open_client k c config).0 _ h in
    let (all, mode) = open_client-IsOpened k c config x opened in
    let mine : x ≡ s.client = ap (λ s. s.client) (ok_inj same) in
    (
      close_clients closes s calm ∙ ap clients (sym mine) ∙ sym all,
      ap is_group_client (sym mine) ∙ mode,
    )

-- What an error leaves open: nothing, if the group or the client could not be made, and otherwise the client
-- whose partition could not be consumed.
pub Leaves : Sarama → ConnectorConfig → SaramaConfig → List ℕ → Type 0
Leaves k c config opened =
    ((opened ≡ [])
      × (((is_group c ≡ true) × (is_ok (k.new_consumer_group c.brokers c.group_id config) ≡ false))
          ⊎ ((is_group c ≡ false) × (is_ok (k.new_consumer c.brokers config) ≡ false))))
    ⊎ ((n : ℕ) × (opened ≡ n ∷ [])
        × (is_group c ≡ false)
        × (k.new_consumer c.brokers config ≡ ok n)
        × (is_ok (k.consume_partition n c.topic (signed 32 c.partition)) ≡ false))

open_partition_fails :
    (k : Sarama) (c : ConnectorConfig) (n : ℕ) (r : Outcome ℕ)
    → is_ok (open_partition k c n r).0 ≡ false
    → ((open_partition k c n r).1 ≡ n ∷ []) × (is_ok r ≡ false)
unfolding open_partition
open_partition_fails k c n (ok p) h = cc
open_partition_fails k c n (fail e) h = (refl, refl)
open_partition_fails k c n panic h = (refl, refl)

open_single_fails :
    (k : Sarama) (c : ConnectorConfig) (r : Outcome ℕ)
    → is_ok (open_single k c r).0 ≡ false
    → (((open_single k c r).1 ≡ []) × (is_ok r ≡ false))
      ⊎ ((n : ℕ) × ((open_single k c r).1 ≡ n ∷ [])
          × (r ≡ ok n)
          × (is_ok (k.consume_partition n c.topic (signed 32 c.partition)) ≡ false))
unfolding open_single
open_single_fails k c (ok n) h =
    let (opened, refused) =
      open_partition_fails k c n (k.consume_partition n c.topic (signed 32 c.partition)) h in
    inr (n, opened, refl, refused)
open_single_fails k c (fail e) h = inl (refl, refl)
open_single_fails k c panic h = inl (refl, refl)

open_group_fails :
    (r : Outcome ℕ) → is_ok (open_group r).0 ≡ false → ((open_group r).1 ≡ []) × (is_ok r ≡ false)
unfolding open_group
open_group_fails (ok n) h = cc
open_group_fails (fail e) h = (refl, refl)
open_group_fails panic h = (refl, refl)

open_client-Leaves :
    (k : Sarama) (c : ConnectorConfig) (config : SaramaConfig)
    → is_ok (open_client k c config).0 ≡ false
    → Leaves k c config (open_client k c config).1
unfolding open_client Leaves
open_client-Leaves k c config h = elim (Bool-cases (is_group c)) [
  | inl grouped ↦
      let (none_open, refused) =
        open_group_fails (k.new_consumer_group c.brokers c.group_id config) (rw grouped at h) in
      inl (rw grouped none_open, inl (grouped, refused))
  | inr single ↦ elim (open_single_fails k c (k.new_consumer c.brokers config) (rw single at h)) [
    | inl (none_open, refused) ↦ inl (rw single none_open, inr (single, refused))
    | inr (n, opened, made, refused) ↦ inr (n, rw single opened, single, made, refused)
  ]
]

is_ok->>= : {A B : Type 0} (r : Outcome A) (g : A → B) → is_ok (r >>= λ a. ok (g a)) ≡ is_ok r
is_ok->>= (ok a) g = refl
is_ok->>= (fail e) g = refl
is_ok->>= panic g = refl

-- A consumer that is not made leaves no client open if the group or the client could not be made, and
-- otherwise, without a group, it leaves open the client that was made, whose partition could not be consumed.
pub new_consumer_fails :
    (f : Files) (k : Sarama) (c : ConnectorConfig) (timeout : ℤ)
    → is_ok (new_consumer f k c timeout).0 ≡ false
    → Leaves k c (consumer_config f k.new_config c timeout) (new_consumer f k c timeout).1
unfolding new_consumer
new_consumer_fails f k c timeout h =
    let config : SaramaConfig = consumer_config f k.new_config c timeout in
    open_client-Leaves k c config (sym (is_ok->>= (open_client k c config).0 _) ∙ h)
