-- ===== src/Kafka/Handshake.antt =====
-- The group mode of server/kafka/consumer.go: how `ConsumeClaim`, which sarama runs once for each claimed
-- partition, hands messages to `Fetch` over `fetchCh` and waits for `Commit` on `commitCh`. All of them share
-- the two channels, which have no buffer, so sending and receiving is one step of both, and a commit reaches
-- any one that waits. A message is its partition and offset, as one number.
pub mod Stall
use nats_kafka.Base.{ℕ, ◌+◌, Bool, true, false, List, [], ◌∷◌, ◌++◌, map, ◌≡◌, ◌⊎◌}

-- Where one `ConsumeClaim` is: in its select, sending on `fetchCh`, receiving on `commitCh`, returned, with
-- the nil that a closed `commitCh` gives, or in the panic of sending on a closed channel.
pub data Claim : Type 0 where
  selecting left got_nil crashed : Claim
  offering awaiting : ℕ → Claim

-- Where the listener's goroutine is: in `Fetch`, in its callback before and after the message was
-- published, or at its end.
pub data Listener : Type 0 where
  fetching ended : Listener
  handling committing : ℕ → Listener

pub record Group : Type 0 where
  pub claims : List Claim
  pub listener : Listener
  pub channels_open : Bool
  pub published : List ℕ
  pub marked : List ℕ

-- `close(c.fetchCh)` and `close(c.commitCh)`, seen from a `ConsumeClaim`.
pub on_close : Claim → Claim
on_close Claim.selecting = Claim.selecting
on_close Claim.left = Claim.left
on_close Claim.got_nil = Claim.got_nil
on_close Claim.crashed = Claim.crashed
on_close (Claim.offering m) = Claim.crashed
on_close (Claim.awaiting m) = Claim.got_nil

-- `c.fetchCh <- cmsg`
unfoldable pub offer : Bool → ℕ → Claim
offer true m = Claim.offering m
offer false m = Claim.crashed

-- One `ConsumeClaim` goes from `c` to `c'`, and the others stay where they are.
pub record Moves (c c' : Claim) (s : Group) : Type 0 where
  pub before : List Claim
  pub behind : List Claim
  pub there : s.claims ≡ before ++ c ∷ behind

abbrev pub moved : {c c' : Claim} {s : Group} → Moves c c' s → List Claim
moved {c} {c'} {s} m = m.before ++ c' ∷ m.behind

pub data Step (s s' : Group) : Type 0 where
  -- sarama runs `ConsumeClaim` for one more partition
  claims_one : s' ≡ record s { claims = Claim.selecting ∷ s.claims } → Step s s'
  -- a message of the claim
  arrives :
      (m : ℕ) (at : Moves Claim.selecting (offer s.channels_open m) s)
      → s' ≡ record s { claims = moved at }
      → Step s s'
  session_ends :
      (at : Moves Claim.selecting Claim.left s) → s' ≡ record s { claims = moved at } → Step s s'
  -- `c.fetchCh <- cmsg` meets `<-c.fetchCh`
  fetched :
      (m : ℕ) (at : Moves (Claim.offering m) (Claim.awaiting m) s)
      → s.listener ≡ Listener.fetching
      → s' ≡ record s { claims = moved at; listener = Listener.handling m }
      → Step s s'
  -- it does too, but the value does not decode: `Fetch` returns an error, and the listener ends
  undecodable :
      (m : ℕ) (at : Moves (Claim.offering m) (Claim.awaiting m) s)
      → s.listener ≡ Listener.fetching
      → s' ≡ record s { claims = moved at; listener = Listener.ended }
      → Step s s'
  publishes :
      (m : ℕ)
      → s.listener ≡ Listener.handling m
      → s' ≡ record s { listener = Listener.committing m; published = m ∷ s.published }
      → Step s s'
  -- the callback returns, and the listener calls `Fetch` again
  publish_fails :
      (m : ℕ)
      → s.listener ≡ Listener.handling m
      → s' ≡ record s { listener = Listener.fetching }
      → Step s s'
  -- `c.commitCh <- cmsg` meets a `<-c.commitCh`, of the claim of any message `m`
  commits :
      (m n : ℕ) (at : Moves (Claim.awaiting m) Claim.selecting s)
      → s.listener ≡ Listener.committing n
      → s' ≡ record s { claims = moved at; listener = Listener.fetching; marked = n ∷ s.marked }
      → Step s s'
  -- the context is cancelled, or the group reports an error: the callback returns, and the listener calls
  -- `Fetch` again unless it is to end
  commit_fails :
      (m : ℕ)
      → s.listener ≡ Listener.committing m
      → s' ≡ record s { listener = Listener.fetching }
      → Step s s'
  -- `Fetch` returns an error, or the listener is done behind its callback
  listener_ends :
      s.listener ≡ Listener.fetching → s' ≡ record s { listener = Listener.ended } → Step s s'
  -- `Close`, which `Shutdown` calls when the listener has ended
  closes :
      s.channels_open ≡ true
      → s.listener ≡ Listener.ended
      → s' ≡ record s { claims = map on_close s.claims; channels_open = false }
      → Step s s'

-- Whether the listener drops a message that it has got, and no commit of it will come.
unfoldable pub losses : {s s' : Group} → Step s s' → ℕ
losses (Step.undecodable m at l e) = 1
losses (Step.publish_fails m l e) = 1
losses (Step.commit_fails m l e) = 1
losses _ = 0

-- Steps, and how many messages the listener dropped in them.
pub data Steps (s : Group) : ℕ → Group → Type 0 where
  here : Steps s 0 s
  next : {n : ℕ} {t u : Group} → Steps s n t → (st : Step t u) → Steps s (losses st + n) u

unfoldable pub new_group : Group
new_group = record {
  claims = [];
  listener = Listener.fetching;
  channels_open = true;
  published = [];
  marked = [];
}
