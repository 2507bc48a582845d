-- ===== src/Money/Tests.antt =====
-- Amounts at concrete values, and the theorems about them applied there.
use integrations_challenge.Prelude.{◌≡◌, ◌⊎◌, refl, codes, some, err, arith}
use integrations_challenge.Prelude.Int.{pos, negsuc, ◌+ℤ◌, ◌-ℤ◌, min_int64}
use integrations_challenge.Money.{Money, money_overflow, currency_scale, add, sub}
use integrations_challenge.Decimal.{Decimal, IsDecimal}
use integrations_challenge.Money.Minor.{Minted, new_money, new_money-Minted}
use integrations_challenge.Money.Laws.{Summed, add-Summed, sub-Summed}

abbrev price : Money
price = record { amount_minor = pos 10823; currency = codes "CHF"; scale = 2 }

abbrev credit : Money
credit = record { amount_minor = negsuc 22; currency = codes "CHF"; scale = 2 }

yen : currency_scale (codes "JPY") ≡ some 0
unfolding currency_scale
yen = refl

add-Summed_example : Summed price credit (pos 10823 +ℤ negsuc 22) (add price credit)
add-Summed_example = add-Summed price credit (omega arith) (omega arith)

sub-Summed_example :
    ((credit.amount_minor ≡ min_int64) × (sub price credit ≡ err money_overflow))
    ⊎ Summed price credit (pos 10823 -ℤ negsuc 22) (sub price credit)
sub-Summed_example = sub-Summed price credit (omega arith) (omega arith)

abbrev tenth : Decimal
tenth = record { unscaled = pos 1; scale = 1 }

tenth-IsDecimal : IsDecimal tenth
tenth-IsDecimal = record { fits = omega arith; scale_le = omega arith }

new_money-Minted_example : Minted (codes "JPY") tenth (new_money (codes "JPY") tenth)
new_money-Minted_example = new_money-Minted (codes "JPY") tenth tenth-IsDecimal
