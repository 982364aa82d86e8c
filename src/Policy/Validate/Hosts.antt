-- ===== src/Policy/Validate/Hosts.antt =====
-- The host check of crates/sv-runtime/src/policy/validate.rs on base addresses with a port.
use sovereign_vault.Common.{
  ℕ, ◌≡◌, ◌≢◌, refl, true, false, [], ◌∷◌, ◌++◌, Text, All, any, ◌==◌, arith, some,
}
use sovereign_vault.Runtime.Error.{ok}
use sovereign_vault.Policy.Validate.{strip_prefix, before_first, after_last, https, host_of}

abbrev pub Free : ℕ → Text → Type 0
Free c = All (λ x. x ≢ c)

pub strip_prefix-append : (p s : Text) → strip_prefix p (p ++ s) ≡ some s
unfolding strip_prefix
strip_prefix-append [] s = refl
strip_prefix-append (c ∷ p) s = ground (arith, strip_prefix-append p s)

before_first-append : (d : ℕ) (s t : Text) → Free d s → before_first d (s ++ d ∷ t) ≡ s
unfolding before_first
before_first-append d [] t f = ground arith
before_first-append d (c ∷ s) t f = ground (arith, before_first-append d s t f.1)

any-Free : (d : ℕ) (s : Text) → Free d s → any (λ x. x == d) s ≡ false
any-Free d [] f = refl
any-Free d (c ∷ s) f = ground (arith, any-Free d s f.1)

after_last-Free : (d : ℕ) (s : Text) → Free d s → after_last d s ≡ s
unfolding after_last
after_last-Free d [] f = refl
after_last-Free d (c ∷ s) f = ground (arith, any-Free d s f.1)

any-append_self : (d : ℕ) (s t : Text) → any (λ x. x == d) (s ++ d ∷ t) ≡ true
any-append_self d [] t = ground arith
any-append_self d (c ∷ s) t = ground (arith, any-append_self d s t)

after_last-append : (d : ℕ) (s t : Text) → Free d t → after_last d (s ++ d ∷ t) ≡ t
unfolding after_last
after_last-append d [] t f = ground (arith, any-Free d t f)
after_last-append d (c ∷ s) t f = ground (arith, any-append_self d s t, after_last-append d s t f)

Free-append : (d : ℕ) (s t : Text) → Free d s → Free d t → Free d (s ++ t)
Free-append d [] t f g = g
Free-append d (c ∷ s) t f g = (f.0, Free-append d s t f.1 g)

-- Where a base address names a port, `host_of` returns the port: whatever stands as the host,
-- a wildcard included, is not what the caller goes on to look at.
pub host_of-port :
    (host port path : Text)
    → Free b'/' host
    → Free b'@' host
    → Free b'/' port
    → Free b'@' port
    → Free b':' port
    → host_of (https ++ (host ++ b':' ∷ port) ++ b'/' ∷ path) ≡ ok port
unfolding host_of
host_of-port host port path hs ha ps pa pc =
    let authority = host ++ b':' ∷ port in
    let no_slash = Free-append b'/' host (b':' ∷ port) hs (omega arith, ps) in
    let no_at = Free-append b'@' host (b':' ∷ port) ha (omega arith, pa) in
    rw (
      before_first-append b'/' authority path no_slash,
      after_last-Free b'@' authority no_at,
      after_last-append b':' host port pc,
    )
