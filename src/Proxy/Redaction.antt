-- ===== src/Proxy/Redaction.antt =====
-- Credentials in a proxy URL (centrifuge/client.py).
use centrifuge_python.Proxy.{
  redact_rest, redact_proxy, rpartition, url, partition, stars, separator, not_valid, Parsed, Chars,
  invalid_proxy, validate_proxy, after_separator, with_head,
}
use centrifuge_python.Base.{
  ℕ, ◌≡◌, refl, Bool, false, ◌||◌, none, some, [], ◌∷◌, ◌++◌, ◌==◌, arith, ap,
}

-- Whether a character occurs.
abbrev pub has_char : ℕ → Chars → Bool
has_char c [] = false
has_char c (d ∷ s) = (d == c) || has_char c s

tail_lacks : (c d : ℕ) (s : Chars) → has_char c (d ∷ s) ≡ false → has_char c s ≡ false
tail_lacks c d s e = ground (arith, e)

head_differs : (c d : ℕ) (s : Chars) → has_char c (d ∷ s) ≡ false → (d == c) ≡ false
head_differs c d s e = ground (arith, e)

rpartition-lacks : (s : Chars) → has_char 64 s ≡ false → rpartition s ≡ none
unfolding rpartition
rpartition-lacks [] e = refl
rpartition-lacks (c ∷ s) e =
    rw (rpartition-lacks s (tail_lacks 64 c s e)) (rw (head_differs 64 c s e) refl)

rpartition-append :
    (credentials hostinfo : Chars)
    → has_char 64 hostinfo ≡ false
    → rpartition (credentials ++ 64 ∷ hostinfo) ≡ some (credentials, hostinfo)
unfolding rpartition
rpartition-append [] hostinfo e = rw (rpartition-lacks hostinfo e) refl
rpartition-append (c ∷ credentials) hostinfo e = rw (rpartition-append credentials hostinfo e) refl

after_separator-none : (c : ℕ) (s : Chars) → (c == 58) ≡ false → after_separator (c ∷ s) ≡ none
after_separator-none c [] e = refl
after_separator-none c (a ∷ []) e = refl
after_separator-none c (a ∷ b ∷ s) e = rw e refl

partition-append :
    (scheme rest : Chars)
    → has_char 58 scheme ≡ false
    → partition (scheme ++ separator ++ rest) ≡ some (scheme, rest)
unfolding partition
partition-append [] rest e = refl
partition-append (c ∷ scheme) rest e =
    rw
      (after_separator-none c (scheme ++ separator ++ rest) (head_differs 58 c scheme e), partition)
      (ap (with_head c) (partition-append scheme rest (tail_lacks 58 c scheme e)))

-- A proxy URL with a scheme without a colon, any credentials and a host without an at sign.
abbrev pub proxy_url : Chars → Chars → Chars → Chars
proxy_url scheme credentials hostinfo = scheme ++ separator ++ (credentials ++ 64 ∷ hostinfo)

redact_proxy-url :
    (scheme credentials hostinfo : Chars)
    → has_char 58 scheme ≡ false
    → has_char 64 hostinfo ≡ false
    → redact_proxy (proxy_url scheme credentials hostinfo)
      ≡ (scheme ++ separator) ++ stars ++ hostinfo
unfolding redact_proxy
redact_proxy-url scheme credentials hostinfo e f =
    rw (partition-append scheme (credentials ++ 64 ∷ hostinfo) e, redact_proxy)
      (rw (rpartition-append credentials hostinfo f, redact_rest) refl)

-- Where the parser does not accept a proxy URL whose scheme has no colon and whose host has no at sign,
-- the refusal shows the scheme, stars and the host, whatever the credentials are.
pub validate_proxy-redacts :
    (parse_proxy : Chars → Parsed) (socks_installed : Bool)
    (scheme credentials hostinfo message : Chars)
    → has_char 58 scheme ≡ false
    → has_char 64 hostinfo ≡ false
    → parse_proxy (proxy_url scheme credentials hostinfo) ≡ invalid_proxy message
    → validate_proxy
        (some parse_proxy)
        socks_installed
        (url (proxy_url scheme credentials hostinfo))
      ≡ not_valid ((scheme ++ separator) ++ stars ++ hostinfo) message
unfolding validate_proxy
validate_proxy-redacts parse_proxy socks_installed scheme credentials hostinfo message e f p =
    rw p (ap (λ s. not_valid s message) (redact_proxy-url scheme credentials hostinfo e f))
