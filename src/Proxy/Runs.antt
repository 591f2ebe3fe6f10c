-- ===== src/Proxy/Runs.antt =====
-- A proxy URL with credentials (centrifuge/client.py).
use centrifuge_python.Proxy.Redaction.{proxy_url, validate_proxy-redacts}
use centrifuge_python.Proxy.{validate_proxy, url, invalid_proxy, not_valid}
use centrifuge_python.Base.{◌≡◌, refl, some, true, [], ◌∷◌}

-- "a://p@q@h", which the parser refuses.
validate_proxy-redacts_example :
    validate_proxy
      (some (λ _. invalid_proxy []))
      true
      (url (proxy_url (97 ∷ []) (112 ∷ 64 ∷ 113 ∷ []) (104 ∷ [])))
    ≡ not_valid (97 ∷ 58 ∷ 47 ∷ 47 ∷ 42 ∷ 42 ∷ 42 ∷ 64 ∷ 104 ∷ []) []
validate_proxy-redacts_example =
    validate_proxy-redacts (λ _. invalid_proxy []) true (97 ∷ []) (112 ∷ 64 ∷ 113 ∷ []) (104 ∷ [])
      [] refl refl refl
