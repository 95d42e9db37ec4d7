-- ===== src/Server/Render/Lines.antt =====
-- A client reads the stream by lines: one message stands on one line.
use stock_trading_bot_server.Prelude.{
  ℕ, zero, suc, ◌≡◌, refl, ap, List, [], ◌∷◌, ◌++◌, ℤ, pos, negsuc, arith, All, All-append, map,
  ltb, inl, inr, Bool-cases,
}
use mathlib.Core.List.{append_assoc, append-nil}
use stock_trading_bot_server.Text.{Text, codes, concat, Lacks}
use stock_trading_bot_server.Number.{print_int, print_fuel}
use stock_trading_bot_server.Account.Page.{lines, lines_from}
use stock_trading_bot_server.Platform.{Platform}
use stock_trading_bot_server.World.{Holding, TradeRecord}
use stock_trading_bot_server.Server.Render.{
  quoted, quoted_all, trade_names, trade_values, trade_body, trade_line, holding_body, holding_line,
}

abbrev pub IsLine : Text → Type 0
IsLine = Lacks b'\n'

concat-IsLine : (ts : List Text) → All IsLine ts → IsLine (concat ts)
unfolding concat
concat-IsLine [] h = tt
concat-IsLine (t ∷ ts) (h, hs) = All-append _ t (concat ts) h (concat-IsLine ts hs)

quoted-IsLine : (name value : Text) → IsLine name → IsLine value → IsLine (quoted name value)
unfolding quoted codes
quoted-IsLine name value h k = (
  omega arith,
  (
    omega arith,
    All-append _ name _ h
        (omega arith, (omega arith, (omega arith, All-append _ value _ k (omega arith, tt)))),
  ),
)

quoted_all-IsLine :
    (names values : List Text)
    → All IsLine names
    → All IsLine values
    → IsLine (quoted_all names values)
unfolding quoted_all
quoted_all-IsLine [] values h k = tt
quoted_all-IsLine (n ∷ ns) [] h k = tt
quoted_all-IsLine (n ∷ ns) (v ∷ vs) (h, hs) (k, ks) =
    All-append _ (quoted n v) _ (quoted-IsLine n v h k) (quoted_all-IsLine ns vs hs ks)

print_fuel-IsLine : (f n : ℕ) → IsLine (print_fuel f n)
unfolding print_fuel
print_fuel-IsLine zero n = tt
print_fuel-IsLine (suc f) n = elim (Bool-cases (ltb n 10)) [
  | inl e ↦ rw e (omega arith, tt)
  | inr e ↦ rw e (All-append _ (print_fuel f _) _ (print_fuel-IsLine f _) (omega arith, tt))
]

pub print_int-IsLine : (z : ℤ) → IsLine (print_int z)
unfolding print_int
print_int-IsLine (pos n) = print_fuel-IsLine (suc n) n
print_int-IsLine (negsuc n) = (omega arith, print_fuel-IsLine (suc (suc n)) (suc n))

-- No text of the trade holds a newline.
abbrev pub HasLineFields : TradeRecord → Type 0
HasLineFields t = All IsLine (trade_values t)

trade_body-IsLine : (t : TradeRecord) → HasLineFields t → IsLine (trade_body t)
unfolding trade_body
trade_body-IsLine t h = All-append _ (codes "{\"type\":\"trade\"") _ (unfold codes in omega arith) (
    All-append _ (quoted_all trade_names (trade_values t)) _
      (quoted_all-IsLine trade_names (trade_values t) (unfold codes trade_names in omega arith) h)
      (unfold codes in omega arith))

lines_from-IsLine :
    (acc u rest : Text)
    → IsLine u
    → lines_from acc (u ++ (b'\n' ∷ rest)) ≡ (acc ++ u) ∷ lines_from [] rest
unfolding lines_from
lines_from-IsLine acc [] rest h = rw append-nil
lines_from-IsLine acc (c ∷ u) rest (n, h) =
    ground (arith, lines_from-IsLine (acc ++ (c ∷ [])) u rest h, append_assoc acc (c ∷ []) u)

lines-concat :
    (bodies : List Text)
    → All IsLine bodies
    → lines (concat (map (λ b. b ++ (b'\n' ∷ [])) bodies)) ≡ bodies
unfolding lines concat lines_from
lines-concat [] h = refl
lines-concat (b ∷ bodies) (h, hs) =
    rw
      (
        append_assoc b (b'\n' ∷ []) (concat (map (λ b. b ++ (b'\n' ∷ [])) bodies)),
        lines_from-IsLine [] b (concat (map (λ b. b ++ (b'\n' ∷ [])) bodies)) h,
      )
      (ap (◌∷◌ b) (lines-concat bodies hs))

module _ (p : Platform) where
  open p use {Double, print_double}

  -- The three texts of a holding hold no newline.
  abbrev pub HasLineTexts : Holding Double → Type 0
  HasLineTexts h = IsLine h.account × IsLine h.code × IsLine h.name

  module _ (double_line : (x : Double) → IsLine (print_double x)) where
    holding_body-IsLine : (h : Holding Double) → HasLineTexts h → IsLine (holding_body p h)
    unfolding holding_body
    holding_body-IsLine h (account, code, name) = concat-IsLine _ (
      unfold codes in omega arith,
      (
        quoted-IsLine _ _ (unfold codes in omega arith) account,
        (
          quoted-IsLine _ _ (unfold codes in omega arith) code,
          (
            quoted-IsLine _ _ (unfold codes in omega arith) name,
            (
              unfold codes in omega arith,
              (
                print_int-IsLine _,
                (
                  unfold codes in omega arith,
                  (
                    print_int-IsLine _,
                    (
                      unfold codes in omega arith,
                      (
                        print_int-IsLine _,
                        (
                          unfold codes in omega arith,
                          (
                            print_int-IsLine _,
                            (
                              unfold codes in omega arith,
                              (
                                print_int-IsLine _,
                                (
                                  unfold codes in omega arith,
                                  (
                                    double_line _,
                                    (
                                      unfold codes in omega arith,
                                      (
                                        print_int-IsLine _,
                                        (
                                          unfold codes in omega arith,
                                          (double_line _, (unfold codes in omega arith, tt)),
                                        ),
                                      ),
                                    ),
                                  ),
                                ),
                              ),
                            ),
                          ),
                        ),
                      ),
                    ),
                  ),
                ),
              ),
            ),
          ),
        ),
      ),
    )

    holdings-IsLine :
        (hs : List (Holding Double)) → All HasLineTexts hs → All IsLine (map (holding_body p) hs)
    holdings-IsLine [] a = tt
    holdings-IsLine (h ∷ hs) (l, a) = (holding_body-IsLine h l, holdings-IsLine hs a)

    trades-IsLine : (ts : List TradeRecord) → All HasLineFields ts → All IsLine (map trade_body ts)
    trades-IsLine [] a = tt
    trades-IsLine (t ∷ ts) (l, a) = (trade_body-IsLine t l, trades-IsLine ts a)

    lines_of :
        (hs : List (Holding Double)) (ts : List TradeRecord)
        → map (holding_line p) hs ++ map trade_line ts
          ≡ map (λ b. b ++ (b'\n' ∷ [])) (map (holding_body p) hs ++ map trade_body ts)
    unfolding holding_line trade_line
    lines_of [] [] = refl
    lines_of [] (t ∷ ts) = ap (◌∷◌ (trade_line t)) (lines_of [] ts)
    lines_of (h ∷ hs) ts = ap (◌∷◌ (holding_line p h)) (lines_of hs ts)

    -- A client that reads the lines of one round with `std::getline` gets one message a line, in the
    -- order sent: the holdings, then the trades. The texts that the messages quote hold no newline,
    -- and neither does a printed `double`.
    pub lines-round :
        (hs : List (Holding Double)) (ts : List TradeRecord)
        → All HasLineTexts hs
        → All HasLineFields ts
        → lines (concat (map (holding_line p) hs ++ map trade_line ts))
          ≡ map (holding_body p) hs ++ map trade_body ts
    lines-round hs ts a b =
        rw (lines_of hs ts)
          (lines-concat _ (All-append _ _ _ (holdings-IsLine hs a) (trades-IsLine ts b)))
