-- ===== src/Host/Transfer/Life/Run.antt =====
-- Any sequence of host calls and of the callback on one transfer (usb-wasi-host/src/main.rs).
use masters_sibren_wieme.Prelude.{
  ℕ, ◌≡◌, ◌≢◌, refl, sym, ap, ◌∙◌, true, false, none, some, List, length, IsU32, subst, arith,
}
use masters_sibren_wieme.Prelude.Int.{ℤ}
use masters_sibren_wieme.Host.Errors.{Result, ok, err}
use masters_sibren_wieme.Host.Transfer.{TransferSetup, LibusbTransfer, returns, Transfer}
use masters_sibren_wieme.Host.Transfer.Completion.{Delivery, deliver, transfer_callback}
use masters_sibren_wieme.Host.Transfer.Calls.{
  TransferResult, hand_over, submit_transfer, await_transfer, cancel_transfer,
}
use masters_sibren_wieme.Host.Transfer.Life.{
  Life, allocated, submitted, finished, rejected, IsSound, Fits, concrete,
}
use masters_sibren_wieme.Host.Transfer.Life.Submit.{submit-allocated}
use masters_sibren_wieme.Host.Transfer.Life.Finish.{
  outcome_of, transfer_callback-submitted, after_await, concrete_result, await_transfer-after_await,
  cancel_transfer-answer,
}

-- What libusb and the device are allowed to do to a transfer in flight.
abbrev pub FitsTransfer : Delivery → Transfer → Type 0
FitsTransfer d t =
    (l : LibusbTransfer) (m : List ℕ) → t.libusb ≡ some l → t.memory ≡ some m → Fits d l m

-- One call of the guest that returns, or the callback of libusb's event thread.
pub data Step (t u : Transfer) : Type 0 where
  submit :
      (rc : ℤ) (bytes : List ℕ) (r : Result (Unit {0}))
      → IsU32 (length bytes)
      → submit_transfer rc bytes t ≡ returns (u, r)
      → Step t u
  await : (r : Result TransferResult) → await_transfer t ≡ returns (u, r) → Step t u
  cancel : (rc : ℤ) (r : Result (Unit {0})) → cancel_transfer rc t ≡ returns (u, r) → Step t u
  complete :
      (d : Delivery)
      → t.in_flight ≡ true
      → FitsTransfer d t
      → transfer_callback (deliver d t) ≡ returns u
      → Step t u

pub data Reach (s : Transfer) : Transfer → Type 0 where
  here : Reach s s
  next : {t u : Transfer} → Reach s t → Step t u → Reach s u

returns-injective {ℓ} : {A : Type ℓ} {a b : A} → returns a ≡ returns b → a ≡ b
returns-injective e = cc

-- Once a transfer has given its buffer away, no submission starts it: one that returns at all
-- leaves the transfer as it is and gives an error.
pub submit_transfer-no_buffer :
    (rc : ℤ) (bytes : List ℕ) (t u : Transfer) (r : Result (Unit {0}))
    → t.has_buffer ≡ false
    → submit_transfer rc bytes t ≡ returns (u, r)
    → (u ≡ t) × (r ≢ ok tt)
unfolding submit_transfer hand_over
submit_transfer-no_buffer rc bytes t u r h e = (ground arith, ground arith)

module _ (setup : TransferSetup) (buf_len : ℕ) where
  -- The transfer is the record of one of the four states, and its buffer is in order.
  abbrev pub IsAlive : Transfer → Type 0
  IsAlive t = (life : Life) × IsSound buf_len life × (t ≡ concrete setup buf_len life)

  same_life :
      (life : Life) {u : Transfer}
      → IsSound buf_len life
      → u ≡ concrete setup buf_len life
      → IsAlive u
  same_life life sound e = (life, sound, e)

  submit-IsAlive :
      (life : Life) (rc : ℤ) (bytes : List ℕ) (u : Transfer) (r : Result (Unit {0}))
      → IsSound buf_len life
      → IsU32 (length bytes)
      → submit_transfer rc bytes (concrete setup buf_len life) ≡ returns (u, r)
      → IsAlive u
  submit-IsAlive (allocated l m) rc bytes u r sound small e =
      let (runs, after) = submit-allocated setup buf_len l m sound rc bytes small in
      (_, after, ap (λ p. p.0) (returns-injective (sym e ∙ runs)))
  submit-IsAlive (submitted l m) rc bytes u r sound small e =
      (submitted l m, sound, (submit_transfer-no_buffer rc bytes _ u r refl e).0)
  submit-IsAlive (finished q p a) rc bytes u r sound small e =
      (finished q p a, tt, (submit_transfer-no_buffer rc bytes _ u r refl e).0)
  submit-IsAlive (rejected l) rc bytes u r sound small e =
      (rejected l, tt, (submit_transfer-no_buffer rc bytes _ u r refl e).0)

  await-IsAlive :
      (life : Life) (u : Transfer) (r : Result TransferResult)
      → IsSound buf_len life
      → await_transfer (concrete setup buf_len life) ≡ returns (u, r)
      → IsAlive u
  unfolding after_await
  await-IsAlive life u r sound e =
      by_life life sound (sym (await_transfer-after_await setup buf_len life) ∙ e)
    where
      by_life :
          (life : Life)
          → IsSound buf_len life
          → concrete_result setup buf_len (after_await setup buf_len life) ≡ returns (u, r)
          → IsAlive u
      by_life (allocated l m) s h = (allocated l m, s, ground arith)
      by_life (submitted l m) s h = absurd (ground arith)
      by_life (finished (ok bytes) packets true) s h =
          (finished (ok bytes) packets true, tt, ground arith)
      by_life (finished (ok bytes) packets false) s h =
          (finished (ok bytes) none true, tt, ground arith)
      by_life (finished (err x) packets true) s h =
          (finished (err x) packets true, tt, ground arith)
      by_life (finished (err x) packets false) s h =
          (finished (err x) packets true, tt, ground arith)
      by_life (rejected l) s h = (rejected l, tt, ground arith)

  complete-IsAlive :
      (life : Life) (d : Delivery) (u : Transfer)
      → IsSound buf_len life
      → (concrete setup buf_len life).in_flight ≡ true
      → FitsTransfer d (concrete setup buf_len life)
      → transfer_callback (deliver d (concrete setup buf_len life)) ≡ returns u
      → IsAlive u
  complete-IsAlive (submitted l m) d u sound flies fits e = (
    finished (outcome_of d l).0 (outcome_of d l).1 false,
    tt,
    returns-injective
        (sym e ∙ transfer_callback-submitted setup buf_len d l m sound (fits l m refl refl)),
  )
  complete-IsAlive (allocated l m) d u sound flies fits e = cc
  complete-IsAlive (finished q p a) d u sound flies fits e = cc
  complete-IsAlive (rejected l) d u sound flies fits e = cc

  -- Every step keeps the transfer in one of the four states.
  pub Step-IsAlive : {t u : Transfer} → Step t u → IsAlive t → IsAlive u
  Step-IsAlive {u} (submit rc bytes r small e) (life, sound, at) =
      submit-IsAlive life rc bytes u r sound small (rw at at e)
  Step-IsAlive {u} (await r e) (life, sound, at) = await-IsAlive life u r sound (rw at at e)
  Step-IsAlive {u} (cancel rc r e) (life, sound, at) = (
    life,
    sound,
    ap (λ p. p.0)
        (returns-injective (sym (rw at at e) ∙ cancel_transfer-answer setup buf_len rc life)),
  )
  Step-IsAlive {u} (complete d flies fits e) (life, sound, at) =
      complete-IsAlive life d u sound (rw at at flies) (subst (FitsTransfer d) at fits) (rw at at e)

  pub Reach-IsAlive : {t u : Transfer} → Reach t u → IsAlive t → IsAlive u
  Reach-IsAlive here alive = alive
  Reach-IsAlive (next r st) alive = Step-IsAlive st (Reach-IsAlive r alive)
