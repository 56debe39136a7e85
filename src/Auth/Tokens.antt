-- ===== src/Auth/Tokens.antt =====
-- Which tokens are accepted, and how long an identity is remembered.
use csi_secret_age.Prelude.{
  ℕ, ◌+◌, Text, [], ◌≡◌, ◌≢◌, refl, sym, true, arith, any_sound, In, codes, ◌==◌, ==_iff,
  if◌then◌else◌, Option, none, some, Result, ok, ltb, Bool-cases, Option-cases, Result-cases, inl,
  inr,
}
use csi_secret_age.Prelude.Maps.{Map, lookup, lookup-insert}
use csi_secret_age.Auth.{
  Claim, text, flag, texts, items, opaque, Token, Authenticator, email_verified, item_is,
  audience_of, audience_matches, issuer_of, issuer_matches, text_of, email, check_claims,
  check_token, validate_jwt, UserInfoCache, UserInfoCacheEntry, get_entry, cache_get, cache_put,
}

-- The audience claim names the expected audience, alone or in a list.
abbrev pub NamesAudience : Text → Option Claim → Type 0
NamesAudience expected (some (text v)) = v ≡ expected
NamesAudience expected (some (texts v)) = In expected v
NamesAudience expected (some (items v)) = In (some expected) v
NamesAudience expected _ = ⊥

-- What an accepted JWT has been checked for.
pub record IsAccepted (a : Authenticator) (raw username : Text) : Type 0 where
  pub parse : Text → Result Text Token
  pub configured : a.parse ≡ some parse
  pub token : Token
  pub parsed : parse raw ≡ ok token
  pub valid : token.valid ≡ true
  pub claims : Map Claim
  pub has_claims : token.claims ≡ some claims
  pub audience : a.audience ≢ [] → NamesAudience a.audience (lookup (codes "aud") claims)
  pub issuer : a.issuer ≢ [] → lookup (codes "iss") claims ≡ some (text a.issuer)
  pub named : lookup a.user_claim claims ≡ some (text username)
  pub not_empty : username ≢ []
  pub verified :
      a.user_claim ≡ email → email_verified (lookup (codes "email_verified") claims) ≡ true

item_sound : (expected : Text) (o : Option Text) → item_is expected o ≡ true → o ≡ some expected
item_sound expected none h = cc
item_sound expected (some s) h = ground (arith, ==_iff s expected)

audience_sound :
    (expected : Text) (o : Option Claim) → audience_of expected o ≡ true → NamesAudience expected o
audience_sound expected none h = cc
audience_sound expected (some (text v)) h = (==_iff v expected).0 h
audience_sound expected (some (flag v)) h = cc
audience_sound expected (some (texts v)) h =
    let (s, m, e) = any_sound (λ s. s == expected) v h in rw (← (==_iff s expected).0 e) m
audience_sound expected (some (items v)) h =
    let (o, m, e) = any_sound (item_is expected) v h in rw (← item_sound expected o e) m
audience_sound expected (some opaque) h = cc

issuer_sound :
    (expected : Text) (o : Option Claim) → issuer_of expected o ≡ true → o ≡ some (text expected)
issuer_sound expected none h = cc
issuer_sound expected (some (text v)) h = ground (arith, ==_iff v expected)
issuer_sound expected (some (flag v)) h = cc
issuer_sound expected (some (texts v)) h = cc
issuer_sound expected (some (items v)) h = cc
issuer_sound expected (some opaque) h = cc

text_sound : (o : Option Claim) (s : Text) → text_of o ≡ s → s ≢ [] → o ≡ some (text s)
text_sound none s e ne = absurd (ne (sym e))
text_sound (some (text v)) s e ne = ground arith
text_sound (some (flag v)) s e ne = absurd (ne (sym e))
text_sound (some (texts v)) s e ne = absurd (ne (sym e))
text_sound (some (items v)) s e ne = absurd (ne (sym e))
text_sound (some opaque) s e ne = absurd (ne (sym e))

module _ (a : Authenticator) (claims : Map Claim) (username : Text)
    (h : check_claims a claims ≡ ok username) where
  checked_username : text_of (lookup a.user_claim claims) ≡ username
  unfolding check_claims
  checked_username = ground arith

  checked_not_empty : username ≢ []
  unfolding check_claims
  checked_not_empty = ground (arith, ==_iff (text_of (lookup a.user_claim claims)) [])

  checked_audience : a.audience ≢ [] → audience_matches claims a.audience ≡ true
  unfolding check_claims
  checked_audience ne = ground (arith, ==_iff a.audience [])

  checked_issuer : a.issuer ≢ [] → issuer_matches claims a.issuer ≡ true
  unfolding check_claims
  checked_issuer ne = ground (arith, ==_iff a.issuer [])

  checked_email :
      a.user_claim ≡ email → email_verified (lookup (codes "email_verified") claims) ≡ true
  unfolding check_claims
  checked_email e = ground (arith, ==_iff a.user_claim email)

-- A JWT is accepted only if it parses and is valid, its audience names the configured one and its
-- issuer is the configured one where these are set, it holds the user claim as a text that is not
-- empty, which is the result, and its email is verified where the email is the user claim.
pub validate_jwt-IsAccepted :
    (a : Authenticator) (raw username : Text)
    → validate_jwt a raw ≡ ok username
    → IsAccepted a raw username
unfolding validate_jwt check_token audience_matches issuer_matches
validate_jwt-IsAccepted a raw username h = elim (Option-cases a.parse) [
  | inl missing ↦ absurd (ground arith)
  | inr (parse, configured) ↦ elim (Result-cases (parse raw)) [
    | inr (e, failed) ↦ absurd (ground arith)
    | inl (token, parsed) ↦ elim (Option-cases token.claims) [
      | inl nothing ↦ absurd (ground arith)
      | inr (claims, has_claims) ↦
          let checked : check_claims a claims ≡ ok username = ground arith in
          let name = checked_username a claims username checked in
          let full = checked_not_empty a claims username checked in
          record {
            parse = parse;
            configured = configured;
            token = token;
            parsed = parsed;
            valid = ground arith;
            claims = claims;
            has_claims = has_claims;
            audience =
                λ ne. audience_sound a.audience _ (checked_audience a claims username checked ne);
            issuer = λ ne. issuer_sound a.issuer _ (checked_issuer a claims username checked ne);
            named = text_sound (lookup a.user_claim claims) username name full;
            not_empty = full;
            verified = checked_email a claims username checked;
          }
    ]
  ]
]

get_entry-state :
    (now : ℕ) (key : Text) (o : Option UserInfoCacheEntry) (c d : UserInfoCache)
    → (get_entry now key o c).0 ≡ (get_entry now key o d).0
get_entry-state now key none c d = refl
get_entry-state now key (some entry) c d = ground arith

get_entry-fresh :
    (now : ℕ) (key : Text) (entry : UserInfoCacheEntry) (c : UserInfoCache)
    → (get_entry now key (some entry) c).0
      ≡ (if ltb entry.expires now then none else some entry.username)
get_entry-fresh now key entry c = ground arith

-- An identity that is stored is returned for its token until its time is over, and never after; for
-- other tokens the cache answers as before.
pub cache_get-cache_put :
    (now then' : ℕ) (key j username : Text) (c : UserInfoCache)
    → (cache_get then' j (cache_put now key username c)).0 ≡ (
        if key == j
        then (if ltb (now + c.ttl) then' then none else some username)
        else (cache_get then' j c).0)
unfolding cache_get cache_put
cache_get-cache_put now then' key j username c =
    rw (lookup-insert key j (record { username = username; expires = now + c.ttl }) c.entries)
      (elim (Bool-cases (key == j)) [
        | inl same ↦ rw same (get_entry-fresh then' j _ _)
        | inr other ↦ rw other (get_entry-state then' j (lookup j c.entries) _ c)
      ])
