-- ===== src/Keys/Tests.antt =====
-- Keys on concrete components, and the theorem about them applied there.
use integrations_challenge.Prelude.{◌≡◌, refl, [], ◌∷◌, codes}
use integrations_challenge.Text.{trim_space}
use integrations_challenge.Keys.{trimmed, join_key, split_key, supplier_key, invoice_key}
use integrations_challenge.Keys.RoundTrip.{split_key-join_key}

-- Leading zeros are kept, and an empty component is one.
written :
    (supplier_key (codes " 0000417 ") ≡ codes "0000417")
    × (split_key (invoice_key (codes "417") []) ≡ codes "417" ∷ [] ∷ [])
unfolding join_key split_key trim_space
written = (refl, refl)

split_key-join_key_example :
    split_key (join_key (codes "0000417" ∷ codes " R-7" ∷ []))
    ≡ trimmed (codes "0000417" ∷ codes " R-7" ∷ [])
unfolding trim_space
split_key-join_key_example =
    split_key-join_key (codes "0000417") (codes " R-7" ∷ []) (refl, (refl, tt))
