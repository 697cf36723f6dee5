-- ===== src/Swap/Order/Message.antt =====
-- A signed message fixes every term, and an order is never read as a bid (swap/src/order.rs).
use xete_programs.Base.{
  refl, ℕ, ◌<◌, ◌≡◌, ◌≢◌, sym, ap, ◌∙◌, ◌++◌, Bytes, length, get_or, take-append, drop-append, take,
  drop, arith,
}
use xete_programs.Base.Words.{
  u64_mod, u64_le, i64_le, IsI64, length-le_bytes, length-i64_le, from_le, from_le-u64_le,
  i64_from_le, i64_from_le-i64_le,
}
use xete_programs.Swap.Order.Ed25519.{Terms, order_domain, bid_domain, signed_message}

-- Terms that the types of the source can hold.
pub record IsTerms (t : Terms) : Type 0 where
  pub give_mint : length t.give_mint ≡ 32
  pub give_amount : t.give_amount < u64_mod
  pub want_mint : length t.want_mint ≡ 32
  pub want_amount : t.want_amount < u64_mod
  pub taker : length t.taker ≡ 32
  pub expiry : IsI64 t.expiry
  pub nonce : length t.nonce ≡ 32

-- Two concatenations with a seam at the same place agree on both sides.
append-inj :
    (n : ℕ) (a b x y : Bytes) → length a ≡ n → length b ≡ n → a ++ x ≡ b ++ y → (a ≡ b) × (x ≡ y)
append-inj n a b x y h k e = (
  sym (take-append n a x h) ∙ (ap (take n) e ∙ take-append n b y k),
  sym (drop-append n a x h) ∙ (ap (drop n) e ∙ drop-append n b y k),
)

u64_le-inj : (m n : ℕ) → m < u64_mod → n < u64_mod → u64_le m ≡ u64_le n → m ≡ n
u64_le-inj m n h k e = sym (from_le-u64_le m h) ∙ (ap from_le e ∙ from_le-u64_le n k)

-- For terms that the source's types can hold: the same message under one domain comes from the same
-- terms.
pub signed_message-inj :
    (domain : Bytes) (t u : Terms)
    → IsTerms t
    → IsTerms u
    → signed_message domain t ≡ signed_message domain u
    → t ≡ u
unfolding signed_message
signed_message-inj domain t u h k e =
    let e0 = append-inj (length domain) domain domain _ _ refl refl e in
    let e1 = append-inj 32 t.give_mint u.give_mint _ _ h.give_mint k.give_mint e0.1 in
    let e2 =
      append-inj 8 (u64_le t.give_amount) (u64_le u.give_amount) _ _ (length-le_bytes 8 _)
        (length-le_bytes 8 _) e1.1 in
    let e3 = append-inj 32 t.want_mint u.want_mint _ _ h.want_mint k.want_mint e2.1 in
    let e4 =
      append-inj 8 (u64_le t.want_amount) (u64_le u.want_amount) _ _ (length-le_bytes 8 _)
        (length-le_bytes 8 _) e3.1 in
    let e5 = append-inj 32 t.taker u.taker _ _ h.taker k.taker e4.1 in
    let e6 =
      append-inj 8 (i64_le t.expiry) (i64_le u.expiry) _ _ (length-i64_le _) (length-i64_le _)
        e5.1 in
    let e7 = append-inj 32 t.nonce u.nonce _ _ h.nonce k.nonce e6.1 in
    let give = u64_le-inj t.give_amount u.give_amount h.give_amount k.give_amount e2.0 in
    let want = u64_le-inj t.want_amount u.want_amount h.want_amount k.want_amount e4.0 in
    let expiry =
      sym (i64_from_le-i64_le t.expiry h.expiry)
      ∙ (ap i64_from_le e6.0 ∙ i64_from_le-i64_le u.expiry k.expiry) in
    let mode : t.royalty_mode ≡ u.royalty_mode = ap (λ l. get_or l 0 0) e7.1 in
    let pct : t.maker_pct ≡ u.maker_pct = ap (λ l. get_or l 1 0) e7.1 in
    λ i. record {
      give_mint = e1.0 i;
      give_amount = give i;
      want_mint = e3.0 i;
      want_amount = want i;
      taker = e5.0 i;
      expiry = expiry i;
      nonce = e7.0 i;
      royalty_mode = mode i;
      maker_pct = pct i;
    }

-- No order's message is a bid's message, whatever the terms.
pub order_message-ne-bid_message :
    (t u : Terms) → signed_message order_domain t ≢ signed_message bid_domain u
unfolding signed_message
order_message-ne-bid_message t u e =
    let letter : 111 ≡ 98 = ap (λ m. get_or m 8 0) e in omega (arith, letter)
