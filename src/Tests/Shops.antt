-- ===== src/Tests/Shops.antt =====
-- A shop with one customer and two pairs, and whole diamonds in place of `f64`.
use cj_store.Prelude.{ℕ, ◌+◌, ◌-◌, ◌*◌, ◌/◌, Bool, true, false, [], ◌∷◌, min, max, ltb, leb, ok}
use cj_store.Prelude.Int.{pos, pos_part}
use cj_store.Float.{Float}
use cj_store.Types.{Node}
use cj_store.Ledger.{User, Pair, Books}
use cj_store.Shop.{Shop, received}
use cj_store.Tests.Fixtures.{warehouse}

instance abbrev pub whole_diamonds : Float ℕ
whole_diamonds = record {
  nought = 0;
  one = 1;
  thousandth = 0;
  i32_limit = 2147483647;
  add = λ a b. a + b;
  sub = λ a b. a - b;
  mul = λ a b. a * b;
  div = λ a b. a / b;
  lesser = λ a b. min a b;
  greater = λ a b. max a b;
  ceil = λ a. a;
  floor = λ a. a;
  lt = ltb;
  le = leb;
  is_finite = λ a. true;
  of_i32 = λ a. pos_part a;
  to_i32 = λ a. pos a;
}

abbrev pub alex : User ℕ
alex = record { uuid = "alex-uuid"; username = "Alex"; balance = 20; operator = false }

abbrev pub dirt_pair : Pair ℕ
dirt_pair = record { item = "dirt"; stack_size = pos 64; item_stock = pos 17; currency_stock = 100 }

abbrev pub alex_books : Books ℕ
alex_books = record {
  users = ("alex-uuid", alex) ∷ [];
  pairs = ("dirt", dirt_pair) ∷ ("iron_ingot", record dirt_pair { item = "iron_ingot" }) ∷ [];
  storage = warehouse;
}

abbrev pub shop : Shop
shop = record {
  desk = record { depot = record { storage = warehouse; dirty = false }; sent = []; replies = [] };
  users = alex_books.users;
  pairs = alex_books.pairs;
  fee = 0;
  dirty_users = [];
  trades = [];
  orders = [];
  advanced = [];
  whispers = ok tt ∷ ok tt ∷ ok tt ∷ [];
  trade_answer = received [];
  trade_requests = [];
}

abbrev pub saves_all : Node → Bool
saves_all n = true
