-- ===== src/LoginGuard/Tests.antt =====
-- A client behind one trusted proxy.
use pi_container.Prelude.Texts.{codes, same_text}
use pi_container.Egress.Text.{Text, split_text}
use pi_container.LoginGuard.{resolve_client_address, resolve_hops, Bool, some}
use pi_container.LoginGuard.Addresses.{resolve_client_address-append}
use pi_container.Prelude.{true, ◌≡◌, ◌++◌, ◌∷◌, refl}

abbrev any_text : Text → Bool
any_text text = true

abbrev same : Text → Text
same text = text

abbrev proxy : Text → Bool
proxy text = same_text (codes "proxy") text

resolve_client_address-append_example :
    resolve_client_address any_text same proxy
      (codes "proxy")
      (some (codes "10.0.0.1" ++ b',' ∷ codes "8.8.8.8, proxy"))
    ≡ resolve_client_address any_text same proxy (codes "proxy") (some (codes "8.8.8.8, proxy"))
unfolding split_text
resolve_client_address-append_example =
    resolve_client_address-append any_text same proxy (codes "proxy") (codes "10.0.0.1")
      (codes "8.8.8.8, proxy") refl

client :
    resolve_client_address any_text same proxy (codes "proxy") (some (codes "8.8.8.8, proxy"))
    ≡ codes "8.8.8.8"
unfolding resolve_client_address resolve_hops
client = refl
