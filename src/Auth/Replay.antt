-- ===== src/Auth/Replay.antt =====
-- A refresh token that was exchanged is never exchanged again.
use vixa_system_config_be.Base.{
  suc, String, Option, none, some, List, ◌≡◌, ◌≢◌, refl, sym, subst, inl, inr, arith, eq_iff, ◌==◌,
  update, find-In, In, In-update, update-In, IsPairwise, pairwise_cases, Option-cases,
}
use vixa_system_config_be.Runtime.{Runtime, Key, Time}
use vixa_system_config_be.Models.User.{User, RefreshToken}
use vixa_system_config_be.Database.{Database}
use vixa_system_config_be.Auth.{
  hash_refresh_token, find_refresh_token, redeem_refresh_token, redeem_found, redeem_unrevoked,
  spend, set_revoked_at,
}
use vixa_system_config_be.Auth.Endpoints.{
  TokenResponse, refresh, refresh_error, tokens_for, AuthRequest, answer_all,
}
use vixa_system_config_be.Auth.Keeps.{tokens_for-Keeps, answer_all-kept}
use vixa_system_config_be.Auth.Spent.{IsSpent, IsSpent-KeepsWrites}
use vixa_system_config_be.Tx.{
  Session, Result, ok, err, continue, or_raise, ◌>>=◌, World, request, open_session,
}

-- the unique column `token_hash`
abbrev pub Distinct : List RefreshToken → Type 0
Distinct t = IsPairwise (λ (a b : RefreshToken). a.token_hash ≢ b.token_hash) t

same_token :
    (t : List RefreshToken) (a b : RefreshToken)
    → Distinct t
    → In a t
    → In b t
    → a.token_hash ≡ b.token_hash
    → a ≡ b
same_token t a b d i j e = elim (pairwise_cases _ t a b d i j) [
  | inl same ↦ same
  | inr (inl apart) ↦ absurd (apart e)
  | inr (inr apart) ↦ absurd (apart (sym e))
]

abbrev revoking : Key → Time → Database → Database
revoking id at d = record d {
  refresh_tokens =
      update (λ (r : RefreshToken). r.id == id) (λ r. record r { revoked_at = some at })
        d.refresh_tokens;
}

revoking-IsSpent :
    (d : Database) (t : RefreshToken) (at : Time)
    → Distinct d.refresh_tokens
    → In t d.refresh_tokens
    → IsSpent t.token_hash (revoking t.id at d)
revoking-IsSpent d t at distinct i = record {
  present = (
    record t { revoked_at = some at },
    (let kept =
          update-In (λ (r : RefreshToken). r.id == t.id) (λ r. record r { revoked_at = some at })
            d.refresh_tokens t i in
        ground arith),
    refl,
  );
  revoked = λ q j e.
      let (p, k, e') =
        In-update (λ (r : RefreshToken). r.id == t.id) (λ r. record r { revoked_at = some at })
          d.refresh_tokens q j in
      rw e' (ground (arith, same_token d.refresh_tokens p t distinct k i));
}

module _ ⦃rt : Runtime⦄ where
  found_hash :
      (raw : String) (d : Database) (t : RefreshToken)
      → find_refresh_token raw d ≡ some t
      → In t d.refresh_tokens × (t.token_hash ≡ hash_refresh_token raw)
  unfolding find_refresh_token
  found_hash raw d t e =
      let (i, p) = find-In _ d.refresh_tokens t e in
      (i, ground (arith, eq_iff t.token_hash (hash_refresh_token raw)))

  -- A redemption that yields a user has revoked the token and committed that.
  redeem_found_spends :
      (t : RefreshToken) (s : Session) (u : User)
      → (redeem_found (some t) s).0 ≡ ok (some u)
      → (at : Time) × ((redeem_found (some t) s).1.db ≡ revoking t.id at s.db)
        × ((redeem_found (some t) s).1.saved ≡ revoking t.id at s.db)
  unfolding redeem_found redeem_unrevoked spend set_revoked_at ◌>>=◌
  redeem_found_spends t s u h = (rt.now (suc s.calls), ground arith, ground arith)

  redeem_found-IsSpent :
      (raw : String) (s : Session) (u : User) (found : Option RefreshToken)
      → Distinct s.db.refresh_tokens
      → find_refresh_token raw s.db ≡ found
      → (redeem_found found s).0 ≡ ok (some u)
      → IsSpent (hash_refresh_token raw) (redeem_found found s).1.db
        × IsSpent (hash_refresh_token raw) (redeem_found found s).1.saved
  redeem_found-IsSpent raw s u none distinct e h = absurd (unfold redeem_found ◌>>=◌ in cc)
  redeem_found-IsSpent raw s u (some t) distinct found h =
      let (i, e) = found_hash raw s.db t found in
      let (at, d, v) = redeem_found_spends t s u h in
      let spent =
        subst (λ x. IsSpent x (revoking t.id at s.db)) e (revoking-IsSpent s.db t at distinct i) in
      rw (d, v) (spent, spent)

  refresh_continues-IsSpent :
      (h : String) (r : Result (Option User)) (s : Session) (a : TokenResponse)
      → ((u : User) → r ≡ ok (some u) → IsSpent h s.db × IsSpent h s.saved)
      → (continue r (λ found. or_raise found refresh_error >>= tokens_for) s).0 ≡ ok a
      → IsSpent h (continue r (λ found. or_raise found refresh_error >>= tokens_for) s).1.saved
  unfolding ◌>>=◌
  refresh_continues-IsSpent h (err e) s a k q = absurd (ground arith)
  refresh_continues-IsSpent h (ok none) s a k q = absurd (ground arith)
  refresh_continues-IsSpent h (ok (some u)) s a k q =
      let (d, v) = k u refl in
      ((tokens_for-Keeps {I = IsSpent h} ⦃writes = IsSpent-KeepsWrites h⦄ u).kept s d v).1

  spent_refused :
      (raw : String) (s : Session)
      → IsSpent (hash_refresh_token raw) s.db
      → (refresh raw s).0 ≡ err refresh_error
  unfolding refresh redeem_refresh_token redeem_found ◌>>=◌
  spent_refused raw s spent = elim (Option-cases (find_refresh_token raw s.db)) [
    | inl missing ↦ ground arith
    | inr (t, found) ↦
        let (i, e) = found_hash raw s.db t found in
        let revoked = spent.revoked t i e in ground arith
  ]

  -- Refresh token hashes being unique, a token that was exchanged once is refused ever after with
  -- 401, whatever requests (sign-ins, refreshes, sign-outs, password changes and resets) come between.
  pub replay_refused :
      (raw : String) (w : World) (r : TokenResponse) (os : List AuthRequest)
      → Distinct w.database.refresh_tokens
      → (request (refresh raw) w).0 ≡ ok r
      → (request (refresh raw) (answer_all (request (refresh raw) w).1 os)).0 ≡ err refresh_error
  unfolding request
  replay_refused raw w r os distinct h =
      let s = open_session w in
      spent_refused raw _ (
        answer_all-kept (IsSpent (hash_refresh_token raw))
          ⦃writes = IsSpent-KeepsWrites (hash_refresh_token raw)⦄ os (request (refresh raw) w).1
          (unfold request refresh ◌>>=◌ in
            refresh_continues-IsSpent (hash_refresh_token raw) (redeem_refresh_token raw s).0
              (redeem_refresh_token raw s).1 r
              (λ u e.
                unfold redeem_refresh_token ◌>>=◌ in
                redeem_found-IsSpent raw s u (find_refresh_token raw s.db) distinct refl e)
              (unfold refresh ◌>>=◌ in h)))
