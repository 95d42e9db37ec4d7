-- ===== src/Server/Render/Fields.antt =====
-- Whether a reader can tell two trades apart by their lines: the values are written with no escapes.
use stock_trading_bot_server.Prelude.{
  ℕ, ◌≡◌, refl, sym, ◌∙◌, List, [], ◌∷◌, ◌++◌, arith, All, length,
}
use mathlib.Core.Path.{ap₂}
use mathlib.Core.List.{append_assoc}
use stock_trading_bot_server.Text.{Text, codes, Lacks}
use stock_trading_bot_server.World.{TradeRecord}
use stock_trading_bot_server.Server.Render.{
  quoted, quoted_all, trade_names, trade_values, trade_body, trade_line,
}

-- No text of the trade holds a quote.
abbrev pub HasPlainFields : TradeRecord → Type 0
HasPlainFields t = All (Lacks b'"') (trade_values t)

tail_eq : {c d : ℕ} {t u : Text} → c ∷ t ≡ d ∷ u → t ≡ u
tail_eq e = cc

append_cancel : (t u v : Text) → t ++ u ≡ t ++ v → u ≡ v
append_cancel [] u v e = e
append_cancel (c ∷ t) u v e = append_cancel t u v (tail_eq e)

-- Up to the first quote.
split_quote :
    (u v r s : Text)
    → Lacks b'"' u
    → Lacks b'"' v
    → u ++ (b'"' ∷ r) ≡ v ++ (b'"' ∷ s)
    → (u ≡ v) × (r ≡ s)
split_quote [] [] r s h k e = (refl, tail_eq e)
split_quote [] (d ∷ v) r s h (n, k) e = absurd (n (cc))
split_quote (c ∷ u) [] r s (n, h) k e = absurd (n (cc))
split_quote (c ∷ u) (d ∷ v) r s (n, h) (m, k) e =
    let (front, back) = split_quote u v r s h k (tail_eq e) in (ground arith, back)

quoted-append :
    (n v q r : Text)
    → (quoted n v ++ q) ++ r ≡ codes ",\"" ++ (n ++ (codes "\":\"" ++ (v ++ (b'"' ∷ (q ++ r)))))
unfolding quoted
quoted-append n v q r = simp append_assoc

quoted-cancel :
    (n v w q r q' r' : Text)
    → Lacks b'"' v
    → Lacks b'"' w
    → (quoted n v ++ q) ++ r ≡ (quoted n w ++ q') ++ r'
    → (v ≡ w) × (q ++ r ≡ q' ++ r')
quoted-cancel n v w q r q' r' h k e =
    let flat = sym (quoted-append n v q r) ∙ e ∙ quoted-append n w q' r' in
    split_quote v w (q ++ r) (q' ++ r') h k (
      append_cancel (codes "\":\"") _ _
        (append_cancel n _ _ (append_cancel (codes ",\"") _ _ flat)))

quoted_all-injective :
    (names vs ws : List Text) (r s : Text)
    → length vs ≡ length names
    → length ws ≡ length names
    → All (Lacks b'"') vs
    → All (Lacks b'"') ws
    → quoted_all names vs ++ r ≡ quoted_all names ws ++ s
    → vs ≡ ws
unfolding quoted_all
quoted_all-injective [] [] [] r s lv lw hv hw e = refl
quoted_all-injective [] (v ∷ vs) ws r s lv lw hv hw e = absurd (omega arith)
quoted_all-injective [] [] (w ∷ ws) r s lv lw hv hw e = absurd (omega arith)
quoted_all-injective (n ∷ ns) [] ws r s lv lw hv hw e = absurd (omega arith)
quoted_all-injective (n ∷ ns) (v ∷ vs) [] r s lv lw hv hw e = absurd (omega arith)
quoted_all-injective (n ∷ ns) (v ∷ vs) (w ∷ ws) r s lv lw (hv, hvs) (hw, hws) e =
    let (same, rest) = quoted-cancel n v w (quoted_all ns vs) r (quoted_all ns ws) s hv hw e in
    ap₂ ◌∷◌ same (quoted_all-injective ns vs ws r s (omega arith) (omega arith) hvs hws rest)

trade_line-values :
    (t u : TradeRecord)
    → HasPlainFields t
    → HasPlainFields u
    → trade_line t ≡ trade_line u
    → trade_values t ≡ trade_values u
unfolding trade_line trade_body trade_names
trade_line-values t u h k e =
    quoted_all-injective trade_names (trade_values t) (trade_values u) (codes "}" ++ (b'\n' ∷ []))
      (codes "}" ++ (b'\n' ∷ [])) (omega arith) (omega arith) h k
      (append_cancel (codes "{\"type\":\"trade\"") _ _ (sym (flat t) ∙ e ∙ flat u))
  where
    flat :
        (t : TradeRecord)
        → trade_line t
          ≡ codes "{\"type\":\"trade\""
            ++ (quoted_all trade_names (trade_values t) ++ (codes "}" ++ (b'\n' ∷ [])))
    flat t = simp append_assoc

-- Two trades whose texts hold no quote are the same if their lines are.
pub trade_line-injective :
    (t u : TradeRecord) → HasPlainFields t → HasPlainFields u → trade_line t ≡ trade_line u → t ≡ u
trade_line-injective t u h k e = let same = trade_line-values t u h k e in ground arith

-- A closing quote, and the opening of the field of the trade's number.
abbrev pub number_field : Text
number_field = b'"' ∷ (codes ",\"" ++ (codes "tradeNo" ++ codes "\":\""))

abbrev pub date_and_number : TradeRecord → Text → Text → TradeRecord
date_and_number t date number = record t { trade_date = date; trade_no = number }

-- Where the texts hold quotes, trades that differ have one line: a date that ends in the text of a
-- further field, and a number that begins with it.
pub trade_line-collision :
    (t : TradeRecord) (a b c : Text)
    → trade_line (date_and_number t (a ++ (number_field ++ b)) c)
      ≡ trade_line (date_and_number t a (b ++ (number_field ++ c)))
unfolding trade_line trade_body trade_names quoted_all quoted
trade_line-collision t a b c = simp append_assoc
