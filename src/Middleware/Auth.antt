-- ===== src/Middleware/Auth.antt =====
-- core/middleware/auth.go: `BasicAuth`. The decoder of base64 and the check of user and password are
-- parameters; `none` is a text that is not base64.
use thinkgo.Base.{
  ◌≡◌, ◌≢◌, ◌↔◌, ◌⊎◌, refl, sym, ap, ◌∙◌, ℕ, ◌+◌, ◌<◌, ◌==◌, ltb, ◌&&◌, ◌||◌, Bool, true, false,
  if◌then◌else◌, Bytes, [], ◌∷◌, ◌++◌, append_assoc, append-nil, Option, none, some, codes, equal,
  equal_iff, ltb_iff, length, take, drop, arith, inl, inr, Bool-cases,
}
use thinkgo.Response.Defs.{HttpWriter, Response, set_header}

abbrev pub basic : Bytes
basic = codes "Basic"

abbrev pub www_authenticate : Bytes
www_authenticate = codes "WWW-Authenticate"

abbrev pub status_unauthorized : ℕ
status_unauthorized = 401

module _ (fn : Bytes → Bytes → Bool) where
  -- The loop over the credentials: `user` is `cred[:i]`.
  unfoldable pub check_from : Bytes → Bytes → Bool
  check_from user [] = false
  check_from user (c ∷ rest) =
      let later = check_from (user ++ c ∷ []) rest in
      if c == b':' then fn user rest || later else later

module _ (decode : Bytes → Option Bytes) (fn : Bytes → Bytes → Bool) where
  -- The conditions on the header Authorization
  unfoldable pub is_valid : Bytes → Bool
  unfolding check_from equal
  is_valid auth =
      if ltb (length basic + 1) (length auth) && equal (take (length basic) auth) basic
      then elim (decode (drop (length basic + 1) auth)) [
        | none ↦ false
        | some cred ↦ check_from fn [] cred
      ]
      else false

  -- `BasicAuth` on the headers Upgrade and Authorization of a request: the response, and the code of
  -- the error, `none` where the next handler is to run.
  unfoldable pub basic_auth :
      {W : Type 0} → HttpWriter W → Bytes → Bytes → Response W → Response W × Option ℕ
  unfolding is_valid equal
  basic_auth http upgrade auth r =
      if equal upgrade (codes "websocket") || is_valid auth then (r, none) else (
        set_header http www_authenticate (basic ++ codes " realm=Restricted") r,
        some status_unauthorized,
      )

module _ (fn : Bytes → Bytes → Bool) where
  check_from-found :
      (user s : Bytes)
      → check_from fn user s ≡ true
      → (u p : Bytes) × (s ≡ u ++ b':' ∷ p) × (fn (user ++ u) p ≡ true)
  unfolding check_from
  check_from-found user [] h = cc
  check_from-found user (c ∷ s) h = elim (Bool-cases (c == b':' && fn user s)) [
    | inl e ↦ ([], s, ground (arith, e), ap (λ z. fn z s) (append-nil user) ∙ ground (arith, e))
    | inr e ↦
        let (u, p, q, f) = check_from-found (user ++ c ∷ []) s (ground (arith, e, h)) in
        (c ∷ u, p, ap (◌∷◌ c) q, ap (λ z. fn z p) (sym (append_assoc user (c ∷ []) u)) ∙ f)
  ]

  found-check_from :
      (u user p : Bytes) → fn (user ++ u) p ≡ true → check_from fn user (u ++ b':' ∷ p) ≡ true
  unfolding check_from
  found-check_from [] user p h =
      let e : fn user p ≡ true = ap (λ z. fn z p) (sym (append-nil user)) ∙ h in rw e refl
  found-check_from (c ∷ u) user p h =
      let r =
        found-check_from u (user ++ c ∷ []) p
          (ap (λ z. fn z p) (append_assoc user (c ∷ []) u) ∙ h) in
      ground (arith, r)

refused-ne-none : some status_unauthorized ≢ none
refused-ne-none e = cc

module _ (decode : Bytes → Option Bytes) (fn : Bytes → Bytes → Bool) where
  -- A header with credentials that the check accepts: behind the scheme and one byte, whatever it is,
  -- stands a text that decodes to a user, a colon and a password, for some colon of it.
  abbrev pub Accepted : Bytes → Type 0
  Accepted auth =
      (user pass : Bytes) × (length basic + 1 < length auth)
      × (take (length basic) auth ≡ basic)
      × (decode (drop (length basic + 1) auth) ≡ some (user ++ b':' ∷ pass))
      × (fn user pass ≡ true)

  decoded-Accepted :
      (auth : Bytes)
      → length basic + 1 < length auth
      → take (length basic) auth ≡ basic
      → (o : Option Bytes) → decode (drop (length basic + 1) auth) ≡ o
      → elim o [ none ↦ false | some cred ↦ check_from fn [] cred ] ≡ true
      → Accepted auth
  decoded-Accepted auth l t none d h = cc
  decoded-Accepted auth l t (some cred) d h =
      let (user, pass, q, f) = check_from-found fn [] cred h in (user, pass, l, t, d ∙ ap some q, f)

  is_valid-Accepted : (auth : Bytes) → is_valid decode fn auth ≡ true → Accepted auth
  unfolding is_valid
  is_valid-Accepted auth h =
      let o = decode (drop (length basic + 1) auth) in
      let iff = equal_iff (take (length basic) auth) basic in
      decoded-Accepted auth (ground (arith, h)) (ground (arith, h, iff)) o refl (ground (arith, h))

  Accepted-is_valid : (auth : Bytes) → Accepted auth → is_valid decode fn auth ≡ true
  unfolding is_valid
  Accepted-is_valid auth (user, pass, l, t, d, f) =
      let e = (equal_iff (take (length basic) auth) basic).1 t in
      let p = ltb_iff (length basic + 1) (length auth) in
      rw (p.1 l) (rw e (rw d (found-check_from fn user [] pass f)))

  -- The next handler runs exactly if the request asks for a web socket or has accepted credentials, and
  -- the response is then as it was; if not, the error is 401, and the header WWW-Authenticate asks for
  -- the scheme Basic.
  pub basic_auth-Accepted :
      {W : Type 0} (http : HttpWriter W) (upgrade auth : Bytes) (r : Response W)
      → ((basic_auth decode fn http upgrade auth r ≡ (r, none))
          ↔ ((upgrade ≡ codes "websocket") ⊎ Accepted auth))
        × (¬ ((upgrade ≡ codes "websocket") ⊎ Accepted auth)
            → basic_auth decode fn http upgrade auth r ≡ (
              set_header http (codes "WWW-Authenticate") (codes "Basic realm=Restricted") r,
              some 401,
            ))
  unfolding basic_auth
  basic_auth-Accepted {W} http upgrade auth r =
      let b = is_valid-Accepted auth in
      let c = Accepted-is_valid auth in
      let w = equal_iff upgrade (codes "websocket") in
      (
        (
          λ h. elim (Bool-cases (equal upgrade (codes "websocket"))) [
            | inl e ↦ inl (w.0 e)
            | inr e ↦ elim (Bool-cases (is_valid decode fn auth)) [
              | inl v ↦ inr (b v)
              | inr v ↦
                  absurd
                    (refused-ne-none (ap (λ (x : Response W × Option ℕ). x.1) (rw (e, v) at h)))
            ]
          ],
          λ x. elim x [ inl e ↦ rw (w.1 e) refl | inr a ↦ ground (arith, c a) ],
        ),
        λ n. elim (Bool-cases (equal upgrade (codes "websocket"))) [
          | inl e ↦ absurd (n (inl (w.0 e)))
          | inr e ↦ elim (Bool-cases (is_valid decode fn auth)) [
            | inl v ↦ absurd (n (inr (b v)))
            | inr v ↦ rw (e, v) refl
          ]
        ],
      )
