-- ===== src/Sale/History.antt =====
-- The history of frontend/src/store/useSaleStore.ts over any list of its operations.
use Prim.Native.String.{String}
use blend_pos.Prelude.{
  ℕ, zero, suc, ◌+◌, ◌-◌, ◌≡◌, refl, ◌≤◌, ◌<◌, false, none, some, List, [], ◌∷◌, foldl, arith, take,
  length, length-take-le,
}
use blend_pos.Number.{Number, num}
use blend_pos.Cart.{CartState, simple, MetodoSimple, compute_total_con_descuento}
use blend_pos.Cart.Edits.{set_global_discount}
use blend_pos.Sale.{SaleRecord}
use blend_pos.Sale.Ticket.{value, value-ticket}
use blend_pos.Sale.Store.{
  SaleState, Pago, Moment, confirm_sale, sale_of, pagos_of, final_total, set_cajero,
  sync_ticket_counter, initial_sales, partialize, merge,
}

pub data SaleAction (W : Type 0) : Type 0 where
  confirm : Moment → Pago W → CartState W → SaleAction W
  name_cashier : String → SaleAction W
  sync_counter : ℕ → SaleAction W
  reload : SaleAction W

module _ {W : Type 0} ⦃d : Number W⦄ where
  abbrev pub apply : SaleState W → SaleAction W → SaleState W
  apply s (confirm now pago c) = (confirm_sale now pago c s).state
  apply s (name_cashier n) = set_cajero n s
  apply s (sync_counter last) = sync_ticket_counter last s
  apply s reload = merge (some (partialize s)) initial_sales

  unfoldable pub run : List (SaleAction W) → SaleState W
  run = foldl apply initial_sales

  -- the ticket numbers fall from `top` on
  abbrev pub Falls : ℕ → List (SaleRecord W) → Type 0
  Falls top [] = Unit
  Falls top (s ∷ ss) =
      (value s.numero_ticket ≤ top)
      × (0 < value s.numero_ticket)
      × Falls (value s.numero_ticket - 1) ss

  pub record IsNumbered (s : SaleState W) : Type 0 where
    pub falls : Falls s.ticket_counter s.historial
    pub short : length s.historial ≤ 200

  Falls-mono : (m n : ℕ) (ss : List (SaleRecord W)) → m ≤ n → Falls m ss → Falls n ss
  Falls-mono m n [] le h = tt
  Falls-mono m n (s ∷ ss) le (a, b, c) = (omega arith, b, c)

  Falls-take : (k top : ℕ) (ss : List (SaleRecord W)) → Falls top ss → Falls top (take k ss)
  Falls-take zero top ss h = tt
  Falls-take (suc k) top [] h = tt
  Falls-take (suc k) top (s ∷ ss) (a, b, c) = (a, b, Falls-take k _ ss c)

  confirm-IsNumbered :
      (now : Moment) (pago : Pago W) (c : CartState W) (s : SaleState W)
      → IsNumbered s
      → IsNumbered (confirm_sale now pago c s).state
  unfolding confirm_sale sale_of
  confirm-IsNumbered now pago c s h = record {
    falls = Falls-take 200 (s.ticket_counter + 1) (sale_of now pago c s ∷ s.historial) (
      omega (arith, value-ticket (s.ticket_counter + 1)),
      omega (arith, value-ticket (s.ticket_counter + 1)),
      Falls-mono s.ticket_counter _ s.historial (omega (arith, value-ticket (s.ticket_counter + 1)))
          h.falls,
    );
    short = length-take-le 200 (sale_of now pago c s ∷ s.historial);
  }

  apply-IsNumbered : (s : SaleState W) (a : SaleAction W) → IsNumbered s → IsNumbered (apply s a)
  unfolding set_cajero sync_ticket_counter merge partialize initial_sales
  apply-IsNumbered s (confirm now pago c) h = confirm-IsNumbered now pago c s h
  apply-IsNumbered s (name_cashier n) h = record { falls = h.falls; short = h.short }
  apply-IsNumbered s (sync_counter last) h =
      ground (arith, Falls-mono s.ticket_counter last s.historial)
  apply-IsNumbered s reload h = record {
    falls = Falls-take 200 _ s.historial h.falls;
    short = length-take-le 200 s.historial;
  }

  foldl-IsNumbered :
      (actions : List (SaleAction W)) (s : SaleState W)
      → IsNumbered s
      → IsNumbered (foldl apply s actions)
  foldl-IsNumbered [] s h = h
  foldl-IsNumbered (a ∷ actions) s h = foldl-IsNumbered actions (apply s a) (apply-IsNumbered s a h)

  -- After any list of sales, reloads of the page, changes of cashier and adjustments of the counter
  -- to the backend's, the history holds at most 200 sales, the newest first, whose ticket numbers
  -- fall strictly and never pass the counter: no ticket number occurs twice.
  pub run-IsNumbered : (actions : List (SaleAction W)) → IsNumbered (run actions)
  unfolding run initial_sales
  run-IsNumbered actions =
      foldl-IsNumbered actions initial_sales (record { falls = tt; short = omega arith })

  -- After a global discount of 100%, where the discounted total is 0, a sale that is paid by one
  -- method with no breakdown records a payment of the whole total, though the sale's own
  -- `totalConDescuento` is 0.
  pub confirm_sale_free :
      (now : Moment) (pago : Pago W) (c : CartState W) (s : SaleState W) (m : MetodoSimple)
      → d.truthy (num 0) ≡ false
      → compute_total_con_descuento c.total (num 100) ≡ num 0
      → pago.metodo_pago ≡ simple m
      → pago.pagos ≡ none
      → let r = confirm_sale now pago (set_global_discount (num 100) c) s in
        (r.sale.total_con_descuento ≡ num 0)
        × (r.sale.pagos ≡ some (record { metodo = m; monto = c.total } ∷ []))
  unfolding confirm_sale sale_of pagos_of final_total set_global_discount
  confirm_sale_free now pago c s m falsy free one nothing =
      (free, rw (nothing, one, free, falsy) refl)
