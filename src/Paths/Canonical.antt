-- ===== src/Paths/Canonical.antt =====
-- What `path.Clean` leaves of a rooted path.
use mathlib.Core.List.{reverse, reverse-cons}
use csi_secret_age.Prelude.{
  Text, List, [], ◌∷◌, ◌++◌, ◌≡◌, ◌≢◌, refl, sym, ap, true, arith, ==_iff, All, All-reverse_aux,
  append_assoc, append-nil, ◌∙◌,
}
use csi_secret_age.Strings.{split, join}
use csi_secret_age.Strings.Splits.{Lacks, split-Lacks, split-join}
use csi_secret_age.Paths.{slash, dot, dot_dot, clean_step, resolve, segments, render, clean}

-- An element that names a child: not "", ".", "..", and free of slashes.
pub record IsName (part : Text) : Type 0 where
  pub not_empty : part ≢ []
  pub not_dot : part ≢ dot
  pub not_dot_dot : part ≢ dot_dot
  pub no_slash : Lacks slash part

clean_step-IsName :
    (stack : List Text) (part : Text)
    → All IsName stack
    → Lacks slash part
    → All IsName (clean_step true stack part)
unfolding clean_step
clean_step-IsName [] part h k = ground (arith, ==_iff part [], ==_iff part dot, ==_iff part dot_dot)
clean_step-IsName (top ∷ stack) part h k =
    ground (arith, ==_iff part [], ==_iff part dot, ==_iff part dot_dot, ==_iff top dot_dot)

resolve-IsName :
    (stack parts : List Text)
    → All IsName stack
    → All (Lacks slash) parts
    → All IsName (resolve true stack parts)
unfolding resolve
resolve-IsName stack [] h _ = All-reverse_aux IsName stack [] h tt
resolve-IsName stack (part ∷ parts) h (k, ks) =
    resolve-IsName (clean_step true stack part) parts (clean_step-IsName stack part h k) ks

-- No element of a cleaned rooted path is "", "." or "..", or holds a slash.
pub segments-IsName : (p : Text) → All IsName (segments p)
unfolding segments
segments-IsName p = resolve-IsName [] (split slash p) tt (split-Lacks slash p)

clean_step_of_IsName :
    (stack : List Text) (part : Text) → IsName part → clean_step true stack part ≡ part ∷ stack
unfolding clean_step
clean_step_of_IsName stack part h =
    ground (arith, ==_iff part [], ==_iff part dot, ==_iff part dot_dot)

resolve_of_IsName :
    (stack parts : List Text) → All IsName parts → resolve true stack parts ≡ reverse stack ++ parts
unfolding resolve
resolve_of_IsName stack [] _ = sym (append-nil _)
resolve_of_IsName stack (part ∷ parts) (h, hs) =
    rw (clean_step_of_IsName stack part h)
      (rw (resolve_of_IsName (part ∷ stack) parts hs) (simp (reverse-cons, append_assoc)))

pub All-no_slash : (parts : List Text) → All IsName parts → All (Lacks slash) parts
All-no_slash [] _ = tt
All-no_slash (part ∷ parts) (h, hs) = (h.no_slash, All-no_slash parts hs)

segments-join : (parts : List Text) → All IsName parts → segments (join slash parts) ≡ parts
unfolding segments
segments-join [] _ = unfold join resolve in refl
segments-join (part ∷ parts) h =
    rw (split-join slash part parts (All-no_slash (part ∷ parts) h))
      (resolve_of_IsName [] (part ∷ parts) h)

-- A leading slash adds an empty element, which is dropped.
pub segments-slash : (p : Text) → segments (slash ∷ p) ≡ segments p
unfolding segments
segments-slash p = refl

pub segments-render : (parts : List Text) → All IsName parts → segments (render parts) ≡ parts
unfolding render
segments-render parts h = segments-slash (join slash parts) ∙ segments-join parts h

-- `path.Clean` of a rooted path is the rooted path with the elements that are left.
pub clean-slash : (p : Text) → clean (slash ∷ p) ≡ render (segments p)
unfolding clean
clean-slash p = refl

pub segments-clean : (p : Text) → segments (clean (slash ∷ p)) ≡ segments p
segments-clean p = rw clean-slash (segments-render (segments p) (segments-IsName p))

pub clean-render : (parts : List Text) → All IsName parts → clean (render parts) ≡ render parts
unfolding render
clean-render parts h = clean-slash (join slash parts) ∙ ap render (segments-join parts h)

-- Cleaning a rooted path leaves only elements that name a child (not "", "." or "..", no slash),
-- and cleaning it a second time changes nothing.
pub clean-IsCanonical :
    (p : Text)
    → All IsName (segments (clean (slash ∷ p))) × (clean (clean (slash ∷ p)) ≡ clean (slash ∷ p))
clean-IsCanonical p = (
  rw segments-clean (segments-IsName p),
  rw clean-slash (clean-render (segments p) (segments-IsName p)),
)
