-- ===== src/Lifecycle/CloseOperation/History.antt =====
-- Histories of a CloseOperation: any interleaving of `Begin` and `Finish` calls by any callers, from
-- the zero value. Calls that panic end a history.
use ferretd.Prelude.{
  ◌↔◌, ◌⊎◌, inl, inr, ℕ, zero, suc, ◌≡◌, ◌≢◌, refl, ◌∙◌, ap, Bool, true, false, Option, none, some,
  done, panic, arith, ◌+◌, if◌then◌else◌,
}
use ferretd.Errors.{Error}
use ferretd.Lifecycle.CloseOperation.{
  CloseOperation, CloseState, close_idle, close_started, close_finished, zero_value, begin, finish,
  started, wait, result, wait_cancelled, returned,
}

abbrev pub tally : Bool → ℕ → ℕ
tally true n = suc n
tally false n = n

-- The state after a history, with the number of `Begin` calls that reported ownership.
pub data History (c : CloseOperation) : ℕ → CloseOperation → Type 0 where
  here : History c zero c
  begins :
      {n : ℕ} {d : CloseOperation} → History c n d → History c (tally (begin d).1 n) (begin d).0
  finishes :
      {n : ℕ} {d e : CloseOperation} (err : Option Error)
      → History c n d
      → finish d err ≡ done e
      → History c n e

-- The channel is made by `Begin` and closed by `Finish`.
abbrev pub ChannelFits : CloseState → Option Bool → Type 0
ChannelFits close_idle ch = ch ≡ none
ChannelFits close_started ch = ch ≡ some false
ChannelFits close_finished ch = ch ≡ some true

abbrev pub IsValid : CloseOperation → Type 0
IsValid c = ChannelFits c.state c.done_channel

pub begin-IsValid : (c : CloseOperation) → IsValid c → IsValid (begin c).0
unfolding begin
begin-IsValid c v = ground arith

pub finish-IsValid :
    (c d : CloseOperation) (err : Option Error) → IsValid c → finish c err ≡ done d → IsValid d
unfolding finish
finish-IsValid c d err v h = ground arith

-- How many owners a state accounts for.
abbrev owners : CloseState → ℕ
owners close_idle = 0
owners close_started = 1
owners close_finished = 1

owners-begin : (c : CloseOperation) → owners (begin c).0.state ≡ tally (begin c).1 (owners c.state)
unfolding begin
owners-begin c = ground arith

owners-finish :
    (c d : CloseOperation) (err : Option Error)
    → finish c err ≡ done d
    → owners d.state ≡ owners c.state
unfolding finish
owners-finish c d err h = ground arith

History-owners :
    {c : CloseOperation} {n : ℕ} {d : CloseOperation}
    → History c n d
    → owners d.state ≡ n + owners c.state
History-owners here = omega arith
History-owners (begins {d = d} h) = ground (arith, owners-begin d, History-owners h)
History-owners (finishes {d = d} {e = e} err h p) =
    omega (arith, owners-finish d e err p, History-owners h)

-- Over any history from the zero value, `Begin` has reported ownership exactly once if the close has
-- been committed, and never otherwise.
pub one_owner :
    {n : ℕ} {c : CloseOperation} → History zero_value n c → n ≡ (if started c then 1 else 0)
unfolding zero_value started
one_owner h = ground (arith, History-owners h)

History-IsValid :
    {c : CloseOperation} {n : ℕ} {d : CloseOperation} → IsValid c → History c n d → IsValid d
History-IsValid v here = v
History-IsValid v (begins {d = d} h) = begin-IsValid d (History-IsValid v h)
History-IsValid v (finishes {d = d} {e = e} err h p) =
    finish-IsValid d e err (History-IsValid v h) p

pub finish-panic :
    (c : CloseOperation) (err : Option Error) (s : CloseState)
    → c.state ≡ s
    → IsValid c
    → (finish c err ≡ panic) ↔ (c.state ≢ close_started)
unfolding finish
finish-panic c err close_idle e v = rw (e, finish) ((λ p. λ q. cc), λ n. refl)
finish-panic c err close_started e v = ((λ p. absurd (ground (arith, v))), λ n. absurd (n e))
finish-panic c err close_finished e v = rw (e, finish) ((λ p. λ q. cc), λ n. refl)

true-false : true ≡ false → ⊥
true-false e = cc

wait-panic :
    (c : CloseOperation) (s : CloseState)
    → c.state ≡ s
    → (context : Bool) → (wait c context ≡ panic) ↔ ((context ≡ false) ⊎ (started c ≡ false))
unfolding wait started
wait-panic c s e false = ((λ p. inl refl), λ n. refl)
wait-panic c close_idle e true = rw (e, wait, started) ((λ p. inr refl), λ n. refl)
wait-panic c close_started e true =
    rw (e, wait, started)
      ((λ p. cc), λ n. absurd (elim n [ inl a ↦ true-false a | inr a ↦ true-false a ]))
wait-panic c close_finished e true =
    rw (e, wait, started)
      ((λ p. cc), λ n. absurd (elim n [ inl a ↦ true-false a | inr a ↦ true-false a ]))

result-panic :
    (c : CloseOperation) (s : CloseState)
    → c.state ≡ s
    → IsValid c
    → (result c ≡ panic) ↔ (c.done_channel ≢ some true)
unfolding result
result-panic c close_idle e v = rw (e, result) ((λ p. λ q. ground (arith, v)), λ n. refl)
result-panic c close_started e v = rw (e, result) ((λ p. λ q. ground (arith, v)), λ n. refl)
result-panic c close_finished e v = rw (e, result) ((λ p. cc), λ n. absurd (n (ground (arith, v))))

-- After any history: `Finish` panics exactly when the close is not in progress, `Wait` exactly when its
-- context is nil or the close is not committed, and `result` exactly when the channel that wakes the
-- waiters is not closed.
pub no_panics :
    {n : ℕ} {c : CloseOperation}
    → History zero_value n c
    → (err : Option Error)
    → ((finish c err ≡ panic) ↔ (c.state ≢ close_started))
      × ((context : Bool) → (wait c context ≡ panic) ↔ ((context ≡ false) ⊎ (started c ≡ false)))
      × ((result c ≡ panic) ↔ (c.done_channel ≢ some true))
unfolding zero_value
no_panics {c = c} h err =
    let v = History-IsValid refl h in
    (finish-panic c err c.state refl v, wait-panic c c.state refl, result-panic c c.state refl v)

begin_finished : (c : CloseOperation) → c.state ≡ close_finished → (begin c).0 ≡ c
unfolding begin
begin_finished c h = ground arith

finish_finished :
    (c d : CloseOperation) (err : Option Error)
    → c.state ≡ close_finished
    → finish c err ≡ done d
    → d ≡ c
unfolding finish
finish_finished c d err h p = ground arith

History-finished :
    {c : CloseOperation} {n : ℕ} {d : CloseOperation}
    → c.state ≡ close_finished
    → History c n d
    → d ≡ c
History-finished f here = refl
History-finished f (begins {d = d} h) =
    let e = History-finished f h in begin_finished d (ap (λ x. x.state) e ∙ f) ∙ e
History-finished f (finishes {d = d} {e = d'} err h p) =
    let e = History-finished f h in finish_finished d d' err (ap (λ x. x.state) e ∙ f) p ∙ e

finish_lem :
    (c d : CloseOperation) (err : Option Error)
    → finish c err ≡ done d
    → (d.state ≡ close_finished) × (d.err ≡ err)
unfolding finish
finish_lem c d err p = ground arith

-- The owner's `Finish`, once.
pub finish-done :
    (c : CloseOperation) (err : Option Error)
    → IsValid c
    → c.state ≡ close_started
    → finish c err ≡ done (record { state = close_finished; done_channel = some true; err = err })
unfolding finish
finish-done c err v s = ground arith

-- A published result is final: whatever is called afterwards, every way in which a waiter can leave
-- `Wait`, cancelled or not, returns the error that the one `Finish` call published.
pub finish-wait :
    (c : CloseOperation) {d e : CloseOperation} {n : ℕ} (err : Option Error)
    → finish c err ≡ done d
    → History d n e
    → (wait e true ≡ done (returned err))
      × (result e ≡ done err)
      × ((x : Error) → wait_cancelled e x ≡ err)
unfolding wait result wait_cancelled
finish-wait c {d} {e} err p h =
    let (s, r) = finish_lem c d err p in
    rw (History-finished s h) (ground arith, ground arith, λ x. ground arith)
