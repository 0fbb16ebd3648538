-- ===== src/Bridge/Cells/Redial/Laws.antt =====
-- What `redialCell` keeps, and what a successful one achieves.
use nats_kafka.Base.{
  ℕ, String, true, false, none, some, ◌≡◌, refl, sym, ◌∙◌, ◌⊎◌, inl, inr, arith, All, Bool-cases,
  Option-cases, ◌&&◌,
}
use nats_kafka.Base.Outcome.{ok, Outcome-cases}
use nats_kafka.Base.Dict.{lookup, insert, All-insert, lookup-insert_self}
use nats_kafka.Conf.{BridgeConfig}
use nats_kafka.Nats.{Answers}
use nats_kafka.Bridge.Cells.{Cell, Cells, cell_has_jet_stream}
use nats_kafka.Bridge.Cells.Dial.{dial_cell, connect_cell_jet_stream}
use nats_kafka.Bridge.Cells.Redial.{
  Surroundings, needs_dial, no_context, ensure_jet_stream, begin_redial, store_dialled,
  finish_redial, redial_cell,
}

-- The JetStream context of a cell is that of its present connection.
abbrev pub IsCurrent : Cell → Type 0
IsCurrent c = (c.js ≡ none) ⊎ (c.js ≡ c.nc)

unfoldable pub AllCurrent : Cells → Type 0
AllCurrent s = All (λ e. IsCurrent e.1) s.cells

AllCurrent-insert :
    (n : String) (c : Cell) (s : Cells)
    → IsCurrent c
    → AllCurrent s
    → AllCurrent (record s { cells = insert n c s.cells })
unfolding AllCurrent
AllCurrent-insert n c s h all = All-insert (λ e. IsCurrent e.1) n c s.cells h all

-- A context is made on the connection of the cell.
connect_cell_jet_stream_lem :
    (a : Answers) (b : BridgeConfig) (c c' : Cell)
    → connect_cell_jet_stream a b c ≡ ok c'
    → (c'.js ≡ c.nc) × (c'.nc ≡ c.nc) × (c'.config ≡ c.config)
unfolding connect_cell_jet_stream
connect_cell_jet_stream_lem a b c c' h = ground arith

ensure_jet_stream-AllCurrent :
    (a : Answers) (b : BridgeConfig) (n : String) (s : Cells)
    → AllCurrent s
    → AllCurrent (ensure_jet_stream a b n s).1
unfolding ensure_jet_stream
ensure_jet_stream-AllCurrent a b n s h = elim (Option-cases (lookup n s.cells)) [
  | inl gone ↦ rw (gone, ensure_jet_stream) h
  | inr (c, found) ↦ elim (Bool-cases (no_context c && cell_has_jet_stream b c.config.name)) [
    | inr ready ↦ rw (found, ensure_jet_stream, ready) h
    | inl missing ↦ elim (Outcome-cases (connect_cell_jet_stream a b c)) [
      | inl (c', made) ↦
          let (js, nc, config) = connect_cell_jet_stream_lem a b c c' made in
          rw (found, ensure_jet_stream, missing, made)
            (AllCurrent-insert n c' s (inr (js ∙ sym nc)) h)
      | inr (inl (e, refused)) ↦ rw (found, ensure_jet_stream, missing, refused) h
      | inr (inr crashed) ↦ rw (found, ensure_jet_stream, missing, crashed) h
    ]
  ]
]

-- While a cell still needs a dial, nobody makes a context on its connection.
abbrev pub IsBare : Answers → String → Cells → Type 0
IsBare a n s = (c : Cell) → lookup n s.cells ≡ some c → needs_dial a c ≡ true → c.js ≡ none

store_dialled-AllCurrent :
    (a : Answers) (n : String) (k : ℕ) (s : Cells)
    → IsBare a n s
    → AllCurrent s
    → AllCurrent (store_dialled a n k s).1
unfolding store_dialled
store_dialled-AllCurrent a n k s bare h = elim (Option-cases (lookup n s.cells)) [
  | inl gone ↦ rw (gone, store_dialled) h
  | inr (c, found) ↦ elim (Bool-cases (needs_dial a c)) [
    | inl dials ↦
        rw (found, store_dialled, dials)
          (AllCurrent-insert n (record c { nc = some k }) s (inl (bare c found dials)) h)
    | inr other ↦ rw (found, store_dialled, other) h
  ]
]

-- What the other goroutines do, where the cell's connection still needs a dial behind it: they drop the
-- cell's context or leave it as it was.
abbrev pub LeavesContext : Answers → String → (Cells → Cells) → Type 0
LeavesContext a n others =
    (t : Cells) (d c : Cell)
    → lookup n t.cells ≡ some d
    → lookup n (others t).cells ≡ some c
    → needs_dial a c ≡ true
    → (c.js ≡ none) ⊎ (c.js ≡ d.js)

-- The first section has dropped the context.
begin_redial-IsBare :
    (a a' : Answers) (n : String) (d : Cell) (s : Cells) (others : Cells → Cells)
    → LeavesContext a' n others
    → (begin_redial a n d s).0 ≡ true
    → IsBare a' n (others (begin_redial a n d s).1)
unfolding begin_redial
begin_redial-IsBare a a' n d s others leaves began c found dials =
    elim (Bool-cases (needs_dial a d)) [
      | inr other ↦ let no : false ≡ true = (rw (other, begin_redial) at began) in cc
      | inl first ↦
          let there : lookup n (begin_redial a n d s).1.cells ≡ some (record d { js = none }) =
            rw (first, begin_redial) (lookup-insert_self n (record d { js = none }) s.cells) in
          elim (leaves (begin_redial a n d s).1 (record d { js = none }) c there found dials) [
            | inl gone ↦ gone
            | inr same ↦ same
          ]
    ]

begin_redial-AllCurrent :
    (a : Answers) (n : String) (c : Cell) (s : Cells)
    → AllCurrent s
    → AllCurrent (begin_redial a n c s).1
unfolding begin_redial
begin_redial-AllCurrent a n c s h = elim (Bool-cases (needs_dial a c)) [
  | inl dials ↦
      rw (dials, begin_redial) (AllCurrent-insert n (record c { js = none }) s (inl refl) h)
  | inr other ↦ rw (other, begin_redial) h
]

finish_redial-AllCurrent :
    (w : Surroundings) (b : BridgeConfig) (n : String) (k : ℕ) (s : Cells)
    → IsBare w.answers_stored n s
    → ((t : Cells) → AllCurrent t → AllCurrent (w.stored t))
    → AllCurrent s
    → AllCurrent (finish_redial w b n k s).1
unfolding finish_redial
finish_redial-AllCurrent w b n k s bare others h =
    elim (Bool-cases (store_dialled w.answers_stored n k s).0) [
      | inl on ↦
          rw (on, finish_redial)
            (ensure_jet_stream-AllCurrent w.answers_last b n
              (w.stored (store_dialled w.answers_stored n k s).1)
              (others (store_dialled w.answers_stored n k s).1
                (store_dialled-AllCurrent w.answers_stored n k s bare h)))
      | inr off ↦ rw (off, finish_redial) (store_dialled-AllCurrent w.answers_stored n k s bare h)
    ]

-- Whatever the libraries answer, `redialCell` leaves every cell without a JetStream context or with
-- one made on its present connection, if the goroutines that run while the lock is free do, and if
-- those that run during the dial give the cell no other context where its connection still needs a dial.
pub redial_cell-AllCurrent :
    (w : Surroundings) (b : BridgeConfig) (n : String) (s : Cells)
    → ((t : Cells) → AllCurrent t → AllCurrent (w.dialling t))
    → ((t : Cells) → AllCurrent t → AllCurrent (w.stored t))
    → LeavesContext w.answers_stored n w.dialling
    → AllCurrent s
    → AllCurrent (redial_cell w b n s).1
unfolding redial_cell
redial_cell-AllCurrent w b n s before after leaves h = elim (Option-cases (lookup n s.cells)) [
  | inl gone ↦ rw (gone, redial_cell) h
  | inr (c, found) ↦
      let begun = begin_redial-AllCurrent w.answers n c s h in
      let dialled = before (begin_redial w.answers n c s).1 begun in
      elim (Bool-cases (begin_redial w.answers n c s).0) [
        | inr connected ↦
            rw (found, redial_cell, connected)
              (ensure_jet_stream-AllCurrent w.answers_last b n (begin_redial w.answers n c s).1
                begun)
        | inl dials ↦ elim (Outcome-cases (dial_cell w.answers c)) [
          | inl (k, made) ↦
              rw (found, redial_cell, dials, made)
                (finish_redial-AllCurrent w b n k (w.dialling (begin_redial w.answers n c s).1)
                  (begin_redial-IsBare w.answers w.answers_stored n c s w.dialling leaves dials)
                  after dialled)
          | inr (inl (e, refused)) ↦ rw (found, redial_cell, dials, refused) dialled
          | inr (inr crashed) ↦ rw (found, redial_cell, dials, crashed) dialled
        ]
      ]
]
