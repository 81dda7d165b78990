-- ===== src/Lib.antt =====
-- BlendPOS: the point-of-sale frontend (frontend/src).
--
-- The program keeps its state in small stores and in a local database, and talks to a backend that
-- may be out of reach. A sale runs through them in this order: the cart store collects lines, asking
-- the local catalog for stock and the promotions for discounts; the sale store turns the cart into a
-- numbered sale; the queue stores the sale and sends it when it can; the cash session and the
-- signed-in session come from the backend and outlive reloads of the page; the printer brings out the
-- receipt.
--
-- The files, and the code they are about:
--   Prelude, Prelude/*      lists, Boolean tests and signed integers that the parts share
--   Number, Number/Fixed    JavaScript numbers that hold amounts: operations, and the laws used
--   Cart, Cart/*            frontend/src/store/useCartStore.ts. Each action is a function of its
--                           arguments and the state; `Cart.Actions.run` runs a list of them
--   Promotions              frontend/src/store/usePromocionesStore.ts: single products and combos
--   Promotions/Groups       the same file's promotions by groups
--   Promotions/Compute      `computePromoDescuentos`
--   Promotions/Store        `fetchActivePromociones`
--   Promotions/Bounds, Results, Shares   what it returns
--   Sale, Sale/*            frontend/src/store/useSaleStore.ts. `confirm_sale` returns the sale, the
--                           new states and the calls that the code starts without waiting
--   Offline/Table           the part of Dexie's Table that the code uses, as an interface with laws
--   Offline/Table/Memory    an instance of it
--   Offline/JsMap           JavaScript's Map
--   Offline/Db              the rows of frontend/src/offline/db.ts
--   Offline/Sync            frontend/src/offline/sync.ts: one row
--   Offline/Sync/Steps      its functions on the tables, cut at the request to the backend
--   Offline/Sync/System     every order of these steps, with `recoverLostSales` as two of them
--   Offline/Sync/Items, Queue, Sent, Added, Lost, Safety, Recovery, Backoff   what is shown of them
--   Offline/Status          frontend/src/hooks/useSyncStatus.ts
--   Offline/Request, Offline/Request/Receiver   frontend/src/services/api/sales.ts: the request that
--                           carries a stored sale
--   Offline/Catalog, Offline/Catalog/*   frontend/src/offline/catalog.ts: downloads and stock;
--                           Search, Found and Complete are about `searchCatalogProducts`
--   Payment, Payment/Amounts   frontend/src/components/pos/PaymentModal.tsx: the amounts, the guard and
--                           the argument of `confirmSale`
--   Caja, Caja/*            frontend/src/store/useCajaStore.ts, cut at its requests
--   Session                 frontend/src/store/tokenStore.ts, and the timer of api/client.ts
--   Session/Client          `request` of frontend/src/api/client.ts
--   Session/Auth            frontend/src/store/useAuthStore.ts
--   Session/Expiry, SignedIn   what is shown of them
--   Session/Overlap         requests of the client that run at once and share `_refreshPromise`, as
--                           events in any order
--   Session/Overlap/Attended, Progress, Calls   what is shown of them
--   Printer                 frontend/src/store/usePrinterStore.ts, and the configuration in
--                           frontend/src/services/ThermalPrinterService.ts, as all of Printer is
--   Printer/Layout          the lines of text
--   Printer/Commands, Printer/Commands/Reading   the commands as bytes, and a printer that reads them
--   Printer/Receipt, Printer/Receipt/*   `buildEscPosBuffer`; Plain, Cut and Width are about it
--   Printer/Preview         `buildTicketBuffer`
--   Printer/Port, Printer/Port/Linked    the serial port
--   Printer/Printing        `printEscPos`, `printAll`, `openCashDrawer`
--   Printer/Lifecycle, Printer/Cancelled   a session of the printer
--   Terminal                frontend/src/store/usePOSUIStore.ts and the discount dialog of
--                           frontend/src/components/pos/DiscountModal.tsx, over the cart store
--   Terminal/Allowed, Limit   what is shown of them
--   Terminal/Keys, Terminal/Keys/*   the keys of frontend/src/pages/PosTerminal.tsx; Layers and Shift are
--                           about them
--   Terminal/Scan, Terminal/Scan/*   `handleAddProduct` of the same file; Sound and Complete are about it
--   Terminal/Promos, Terminal/Promos/Settled   the effect of the same file that brings the promotions into
--                           the cart
--   Terminal/Table          the rows of frontend/src/components/pos/SalesTable.tsx
--   Terminal/Table/Combos, Units   what is shown of them
--   Admin/Products, Admin/Products/*   the table of frontend/src/pages/admin/GestionProductosPage.tsx; Events
--                           has what happens on it, Pages and Selection are about it
--   Admin/Purchase          the form of frontend/src/pages/admin/NuevaCompraPage.tsx
--   Admin/Purchase/Edits    the edits of its rows
--   Admin/Purchase/Sent, Keys   what is shown of it
--   Admin/Dashboard         what frontend/src/pages/admin/DashboardPage.tsx computes of the sales
--   Admin/Dashboard/Hours, Sums   what is shown of it
--   Tests, Tests/*          runs of the code and the theorems at concrete inputs
--
-- Conventions. Names are those of the source with underscores. Identifiers and times are naturals,
-- quantities and stocks are integers, and amounts are of a type with the operations of `Number`, so
-- that nothing is assumed of floating-point arithmetic but the laws that a theorem names. Quantities
-- are whole: a product is scanned one unit at a time, and what is typed into the table is taken as a
-- whole number, although its field lets a fraction through. What the clock, `Math.random()`, the
-- database and the backend give are arguments. Loops are recursion on the list that they run over.
-- The one loop on fuel prints a number in decimal: the fuel is the number plus one, which is more
-- than it has digits.
--
-- Not modelled: what the views render; of the administration the screens but for the table of
-- products, the form of a purchase and the figures of the dashboard; the requests that only pass data
-- on; printer operations that overlap; the Go backend and the fiscal sidecar.
pub mod Prelude
pub mod Number
pub mod Cart
pub mod Promotions
pub mod Sale
pub mod Offline
pub mod Payment
pub mod Caja
pub mod Session
pub mod Printer
pub mod Terminal
pub mod Admin
mod Tests
