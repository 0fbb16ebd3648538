-- ===== src/Kafka/Handshake/Stall.antt =====
-- What follows from the handshake of the group mode.
use nats_kafka.Base.{
  ℕ, ◌+◌, Bool, true, false, List, [], ◌∷◌, ◌++◌, ◌≡◌, refl, ap, ◌∙◌, ◌⊎◌, inl, inr, arith,
}
use nats_kafka.Kafka.Handshake.{
  Claim, Listener, Group, Moves, moved, offer, Step, losses, Steps, new_group,
}

-- How many wait for a commit.
pub waits : Claim → ℕ
waits (Claim.awaiting m) = 1
waits _ = 0

pub waiting : List Claim → ℕ
unfolding waits
waiting [] = 0
waiting (c ∷ cs) = waits c + waiting cs

-- How many messages the listener has in hand.
pub in_hand : Listener → ℕ
in_hand (Listener.handling m) = 1
in_hand (Listener.committing m) = 1
in_hand _ = 0

waiting-append : (xs ys : List Claim) → waiting (xs ++ ys) ≡ waiting xs + waiting ys
unfolding waiting
waiting-append [] ys = omega arith
waiting-append (x ∷ xs) ys = omega (arith, waiting-append xs ys)

-- One that moves takes its share with it.
waiting-moved :
    (c c' : Claim) (s : Group) (at : Moves c c' s)
    → waiting (moved at) + waits c ≡ waiting s.claims + waits c'
unfolding waiting
waiting-moved c c' s at =
    let was : waiting s.claims ≡ waiting at.before + (waits c + waiting at.behind) =
      ap waiting at.there ∙ waiting-append at.before (c ∷ at.behind) in
    let is : waiting (moved at) ≡ waiting at.before + (waits c' + waiting at.behind) =
      waiting-append at.before (c' ∷ at.behind) in
    omega (arith, was, is)

waits-offer : (b : Bool) (m : ℕ) → waits (offer b m) ≡ 0
unfolding waits offer
waits-offer true m = refl
waits-offer false m = refl

-- `n` messages were dropped.
IsBalanced : ℕ → Group → Type 0
IsBalanced n s = (s.channels_open ≡ false) ⊎ (waiting s.claims ≡ n + in_hand s.listener)

stays_closed : (s s' : Group) → Step s s' → s.channels_open ≡ false → s'.channels_open ≡ false
stays_closed s s' (Step.claims_one e) h = ap (λ x. x.channels_open) e ∙ h
stays_closed s s' (Step.arrives m at e) h = ap (λ x. x.channels_open) e ∙ h
stays_closed s s' (Step.session_ends at e) h = ap (λ x. x.channels_open) e ∙ h
stays_closed s s' (Step.fetched m at l e) h = ap (λ x. x.channels_open) e ∙ h
stays_closed s s' (Step.undecodable m at l e) h = ap (λ x. x.channels_open) e ∙ h
stays_closed s s' (Step.publishes m l e) h = ap (λ x. x.channels_open) e ∙ h
stays_closed s s' (Step.publish_fails m l e) h = ap (λ x. x.channels_open) e ∙ h
stays_closed s s' (Step.commits m n at l e) h = ap (λ x. x.channels_open) e ∙ h
stays_closed s s' (Step.commit_fails m l e) h = ap (λ x. x.channels_open) e ∙ h
stays_closed s s' (Step.listener_ends l e) h = ap (λ x. x.channels_open) e ∙ h
stays_closed s s' (Step.closes o l e) h = ap (λ x. x.channels_open) e

-- The claims and the listener of a state, as numbers.
abbrev claims_of : {s t : Group} → s ≡ t → waiting s.claims ≡ waiting t.claims
claims_of e = ap (λ x. waiting x.claims) e

abbrev hand_of : {s t : Group} → s ≡ t → in_hand s.listener ≡ in_hand t.listener
hand_of e = ap (λ x. in_hand x.listener) e

keeps_balance :
    (n : ℕ) (s s' : Group) (st : Step s s')
    → waiting s.claims ≡ n + in_hand s.listener
    → IsBalanced (losses st + n) s'
unfolding IsBalanced losses waiting in_hand
keeps_balance n s s' (Step.claims_one e) h = inr (omega (arith, h, claims_of e, hand_of e))
keeps_balance n s s' (Step.arrives m at e) h = inr (
    omega (
      arith,
      h,
      claims_of e,
      hand_of e,
      waits-offer s.channels_open m,
      waiting-moved Claim.selecting (offer s.channels_open m) s at,
    ))
keeps_balance n s s' (Step.session_ends at e) h =
    inr (omega (arith, h, claims_of e, hand_of e, waiting-moved Claim.selecting Claim.left s at))
keeps_balance n s s' (Step.fetched m at l e) h = inr (
    omega (
      arith,
      h,
      claims_of e,
      hand_of e,
      ap in_hand l,
      waiting-moved (Claim.offering m) (Claim.awaiting m) s at,
    ))
keeps_balance n s s' (Step.undecodable m at l e) h = inr (
    omega (
      arith,
      h,
      claims_of e,
      hand_of e,
      ap in_hand l,
      waiting-moved (Claim.offering m) (Claim.awaiting m) s at,
    ))
keeps_balance n s s' (Step.publishes m l e) h =
    inr (omega (arith, h, claims_of e, hand_of e, ap in_hand l))
keeps_balance n s s' (Step.publish_fails m l e) h =
    inr (omega (arith, h, claims_of e, hand_of e, ap in_hand l))
keeps_balance n s s' (Step.commits m k at l e) h = inr (
    omega (
      arith,
      h,
      claims_of e,
      hand_of e,
      ap in_hand l,
      waiting-moved (Claim.awaiting m) Claim.selecting s at,
    ))
keeps_balance n s s' (Step.commit_fails m l e) h =
    inr (omega (arith, h, claims_of e, hand_of e, ap in_hand l))
keeps_balance n s s' (Step.listener_ends l e) h =
    inr (omega (arith, h, claims_of e, hand_of e, ap in_hand l))
keeps_balance n s s' (Step.closes o l e) h = inl (ap (λ x. x.channels_open) e)

-- In every state of a new group, until the channels are closed, the calls of `ConsumeClaim` that wait for a
-- commit are as many as the messages that the listener has dropped, whose publication failed, whose value
-- did not decode or whose commit failed, and the one that it has in hand: each message that is dropped
-- costs one claim, whichever it is, and no later commit makes up for it.
pub waiting_lem :
    (n : ℕ) (s : Group)
    → Steps new_group n s
    → (s.channels_open ≡ false) ⊎ (waiting s.claims ≡ n + in_hand s.listener)
unfolding IsBalanced in_hand waiting new_group
waiting_lem n s Steps.here = inr refl
waiting_lem n s (Steps.next {n = k} {t = t} r st) = elim (waiting_lem k t r) [
  | inl closed ↦ inl (stays_closed t s st closed)
  | inr h ↦ keeps_balance k t s st h
]
