-- ===== src/DpApi/Sessions.antt =====
-- controller/dataplane/dp_api.c: the sessions with the driver of the switch.
use marina.Prelude.{
  ℕ, ◌≡◌, refl, ap, ◌∙◌, arith, Status, success, failure, Bool, true, ◌==◌, if◌then◌else◌,
}
use marina.DpApi.{ErrorCode, ok, err_connect}

-- The functions of the driver; `client_init` gives what the handle is afterwards.
record SessionDriver (S : Type 0) : Type 0 where
  pipe_mgr_init : S → Status × S
  client_init : ℕ → S → Status × ℕ × S
  client_cleanup : ℕ → S → Status × S

unfoldable connect_code : Status → ErrorCode
connect_code success = ok
connect_code failure = err_connect

module _ {S : Type 0} (driver : SessionDriver S) where
  open driver use {pipe_mgr_init, client_init, client_cleanup}

  -- What follows the call of `pipe_mgr_init`.
  unfoldable client_connect : Status → S → ErrorCode × ℕ × S
  client_connect failure s = (err_connect, 0, s)
  client_connect success s =
      let (status, handle, s') = client_init 0 s in (connect_code status, handle, s')

  -- The result, and what `sess_hdl` points to.
  unfoldable switch_connect : S → ErrorCode × ℕ × S
  switch_connect s = let (status, s') = pipe_mgr_init s in client_connect status s'

  unfoldable switch_disconnect : ℕ → S → ErrorCode × S
  switch_disconnect handle s =
      let (status, s') = client_cleanup handle s in (connect_code status, s')

  -- What is documented, with `open` for the sessions of a state: an initialisation opens none, a
  -- session that is given is new, and one that is open can be closed.
  record IsSessions (open_in : S → ℕ → Bool) : Type 0 where
    init_opens_none : (s : S) (h : ℕ) → open_in (pipe_mgr_init s).1 h ≡ open_in s h
    client_new :
        (s : S)
        → (client_init 0 s).0 ≡ success
        → (h : ℕ)
        → open_in (client_init 0 s).2 h ≡ (if h == (client_init 0 s).1 then true else open_in s h)
    client_closed : (s : S) (h : ℕ) → open_in s h ≡ true → (client_cleanup h s).0 ≡ success

connect_code-ok : (status : Status) → connect_code status ≡ ok → status ≡ success
unfolding connect_code
connect_code-ok success e = refl
connect_code-ok failure e = cc

module _ {S : Type 0} (driver : SessionDriver S) (open_in : S → ℕ → Bool)
    (good : IsSessions driver open_in) where
  open good use {init_opens_none, client_new, client_closed}

  -- One session is open that was not, and it can be closed.
  abbrev Opens : S → ℕ → S → Type 0
  Opens before handle after =
      ((h : ℕ) → open_in after h ≡ (if h == handle then true else open_in before h))
      × ((switch_disconnect driver handle after).0 ≡ ok)

  client_connect-Opens :
      (status : Status) (s : S)
      → (client_connect driver status s).0 ≡ ok
      → Opens s (client_connect driver status s).1 (client_connect driver status s).2
  unfolding client_connect switch_disconnect connect_code
  client_connect-Opens failure s e = cc
  client_connect-Opens success s e =
      let given : (driver.client_init 0 s).0 ≡ success =
        connect_code-ok (driver.client_init 0 s).0 e in
      let handle = (driver.client_init 0 s).1 in
      let after = (driver.client_init 0 s).2 in
      let opened : open_in after handle ≡ true = client_new s given handle ∙ ground arith in
      (client_new s given, ap connect_code (client_closed after handle opened))

  -- If it succeeds, connecting has opened the session whose handle is returned, and no other is
  -- open or closed by it; disconnecting from there with that handle succeeds.
  switch_connect-Opens :
      (s : S)
      → (switch_connect driver s).0 ≡ ok
      → Opens s (switch_connect driver s).1 (switch_connect driver s).2
  unfolding switch_connect
  switch_connect-Opens s e =
      let (status, s') = driver.pipe_mgr_init s in
      let (opened, closes) = client_connect-Opens status s' e in
      let handle = (client_connect driver status s').1 in
      (λ h. opened h ∙ ap (λ b. if h == handle then true else b) (init_opens_none s h), closes)
