-- ===== src/Instance/SignedIn.antt =====
-- Who is signed in.
use libcaffeine.Base.{
  ◌≡◌, refl, sym, ◌∙◌, arith, ℕ, true, Option, none, some, has_value, Bool-cases, inl, inr,
}
use mathlib.Core.Path.{subst}
use libcaffeine.Base.Bytes.{Bytes}
use libcaffeine.Base.Outcome.{Outcome, done, thrown, unfinished, undefined, M, continue}
use libcaffeine.Api.{CaffResult, success}
use libcaffeine.Utils.{CString}
use libcaffeine.Rest.Types.{Credentials, AuthResponse, UserInfo}
use libcaffeine.Rest.Network.{Network, Client}
use libcaffeine.Rest.Auth
use libcaffeine.Rest.Auth.Results.{IsConsistent, sign_in-IsConsistent, refresh_auth-IsConsistent}
use libcaffeine.Instance.{
  Instance, with_user, with_credentials, authenticate, sign_in, refresh_auth, is_signed_in,
}

module _ (net : Network) (client : Client) where
  -- Credentials, user information and a refresh token are there together or not at all.
  pub record Agrees (s : Instance net) : Type 0 where
    pub user : has_value s.user_info ≡ has_value s.shared_credentials
    pub token : has_value s.refresh_token ≡ has_value s.shared_credentials

  -- What holds after an authentication that has returned a result.
  abbrev pub Settles : CaffResult → Instance net → Type 0
  Settles r s = Agrees s × (r ≡ success → is_signed_in net client s ≡ true)

  abbrev Settled : Outcome CaffResult → Instance net → Type 0
  Settled (done r) s = Settles r s
  Settled thrown s = Unit {0}
  Settled unfinished s = Unit {0}
  Settled undefined s = Unit {0}

  settled :
      (result : CaffResult) (o : Outcome (Option UserInfo)) (s : Instance net)
      → has_value s.shared_credentials ≡ true
      → has_value s.refresh_token ≡ true
      → let t = continue (with_user net client result) o s in Settled t.0 t.1
  unfolding with_user is_signed_in
  settled result (done none) s c t = (record { user = refl; token = refl }, λ e. cc)
  settled result (done (some user)) s c t =
      (record { user = sym c; token = t ∙ sym c }, λ e. ground (arith, c))
  settled result thrown s c t = tt
  settled result unfinished s c t = tt
  settled result undefined s c t = tt

  with_credentials-Settled :
      (fuel : ℕ) (result : CaffResult) (o : Option Credentials) (s : Instance net)
      → (result ≡ success → has_value o ≡ true)
      → Agrees s
      → let t = with_credentials net client fuel result o s in Settled t.0 t.1
  unfolding with_credentials
  with_credentials-Settled fuel result none s h a = (a, λ e. absurd (ground (arith, h e)))
  with_credentials-Settled fuel result (some c) s h a = settled result _ _ refl refl

  authenticated :
      (fuel : ℕ) (o : Outcome AuthResponse) (s : Instance net)
      → ((r : AuthResponse) → o ≡ done r → IsConsistent r)
      → Agrees s
      → let t = continue (λ r. with_credentials net client fuel r.result r.credentials) o s in
        Settled t.0 t.1
  authenticated fuel (done r) s h a =
      with_credentials-Settled fuel r.result r.credentials s (h r refl).0 a
  authenticated fuel thrown s h a = tt
  authenticated fuel unfinished s h a = tt
  authenticated fuel undefined s h a = tt

  authenticate-Settled :
      (fuel : ℕ) (auth : M (net.World) AuthResponse) (s : Instance net)
      → ((r : AuthResponse) → (auth s.world).0 ≡ done r → IsConsistent r)
      → Agrees s
      → let t = authenticate net client fuel auth s in Settled t.0 t.1
  unfolding authenticate
  authenticate-Settled fuel auth s h a = elim (Bool-cases (has_value s.broadcast)) [
    | inl on ↦ rw (on, authenticate) (a, λ e. cc)
    | inr off ↦
        rw (off, authenticate)
          (authenticated fuel (auth s.world).0 (record s { world = (auth s.world).1 }) h
            (record { user = a.user; token = a.token }))
  ]

  -- If credentials, user information and refresh token of an instance are there together or not at
  -- all, then this is so after a sign-in that returns, and a sign-in that returns success has left
  -- the instance signed in.
  pub sign_in-Settles :
      (fuel : ℕ) (username password : Bytes) (otp : CString) (s : Instance net) {r : CaffResult}
      {s' : Instance net}
      → Agrees s
      → sign_in net client fuel username password otp s ≡ (done r, s')
      → Settles r s'
  unfolding sign_in
  sign_in-Settles fuel username password otp s {r} {s'} a e =
      subst (λ t. Settled t.0 t.1) e
        (authenticate-Settled fuel (Auth.sign_in net client username password otp) s
          (λ q h.
            sign_in-IsConsistent net client username password otp s.world {r = q}
              (λ i. (h i, (Auth.sign_in net client username password otp s.world).1)))
          a)

  -- If credentials, user information and refresh token of an instance are there together or not at
  -- all, then this is so after a refresh of its authentication that returns, and one that returns
  -- success has left the instance signed in.
  pub refresh_auth-Settles :
      (fuel : ℕ) (token : Bytes) (s : Instance net) {r : CaffResult} {s' : Instance net}
      → Agrees s
      → refresh_auth net client fuel token s ≡ (done r, s')
      → Settles r s'
  unfolding refresh_auth
  refresh_auth-Settles fuel token s {r} {s'} a e =
      subst (λ t. Settled t.0 t.1) e
        (authenticate-Settled fuel (Auth.refresh_auth net client token) s
          (λ q h.
            refresh_auth-IsConsistent net client token s.world {r = q}
              (λ i. (h i, (Auth.refresh_auth net client token s.world).1)))
          a)
