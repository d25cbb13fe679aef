-- ===== src/Pages/Marketplace/Installing.antt =====
-- The categories and the cards of the marketplace.
use rafineai_self_hosted.Prelude.{
  String, Bool, true, false, not, ◌||◌, ◌&&◌, List, [], ◌∷◌, ◌≡◌, refl, ap, ◌∙◌, map, any, includes,
  arith, eq_iff, ◌===◌, Option,
}
use rafineai_self_hosted.Types.{MarketplaceApp}
use rafineai_self_hosted.Page.{is_admin}
use rafineai_self_hosted.Pages.Marketplace.{distinct_from, categories, card}

abbrev pub IsDistinct : List String → Type 0
IsDistinct [] = Unit
IsDistinct (c ∷ cs) = (includes c cs ≡ false) × IsDistinct cs

includes-distinct_from :
    (j : String) (seen cs : List String)
    → includes j (distinct_from seen cs) ≡ (not (includes j seen) && includes j cs)
unfolding distinct_from
includes-distinct_from j seen [] = ground arith
includes-distinct_from j seen (c ∷ cs) =
    ground
      (arith, includes-distinct_from j seen cs, includes-distinct_from j (c ∷ seen) cs, eq_iff c j)

IsDistinct-step :
    (b : Bool) (c : String) (xs ys : List String)
    → IsDistinct xs
    → includes c ys ≡ false
    → IsDistinct ys
    → IsDistinct (elim b [ true ↦ xs | false ↦ c ∷ ys ])
IsDistinct-step true c xs ys h new k = h
IsDistinct-step false c xs ys h new k = (new, k)

distinct_from-IsDistinct : (seen cs : List String) → IsDistinct (distinct_from seen cs)
unfolding distinct_from
distinct_from-IsDistinct seen [] = tt
distinct_from-IsDistinct seen (c ∷ cs) =
    IsDistinct-step (includes c seen) c (distinct_from seen cs) (distinct_from (c ∷ seen) cs)
      (distinct_from-IsDistinct seen cs)
      (includes-distinct_from c (c ∷ seen) cs ∙ ground (arith, eq_iff c c))
      (distinct_from-IsDistinct (c ∷ seen) cs)

includes-map :
    (c : String) (apps : List MarketplaceApp)
    → includes c (map (λ (a : MarketplaceApp). a.category) apps)
      ≡ any (λ (a : MarketplaceApp). a.category === c) apps
includes-map c [] = refl
includes-map c (a ∷ apps) = ap (λ b. a.category === c || b) (includes-map c apps)

-- The page has a section for every category that some app has, and for no other, and none twice.
pub categories_lem :
    (apps : List MarketplaceApp) (c : String)
    → IsDistinct (categories apps)
      × (includes c (categories apps) ≡ any (λ (a : MarketplaceApp). a.category === c) apps)
unfolding categories
categories_lem apps c =
    (distinct_from-IsDistinct [] _, includes-distinct_from c [] _ ∙ includes-map c apps)

-- Someone who is not an admin gets no button that changes an app; an admin gets, for each app, one of
-- the two ways to install it exactly if it is not installed, and else the switch and the removal.
pub card_lem :
    (role : Option String) (a : MarketplaceApp)
    → ((not (is_admin role)
          && ((card role a).configure_new
              || (card role a).quick_install
              || (card role a).configure
              || (card role a).switch
              || (card role a).uninstall))
        ≡ false)
      × (((card role a).configure_new || (card role a).quick_install)
          ≡ (is_admin role && not a.installed))
      × (((card role a).configure_new && (card role a).quick_install) ≡ false)
      × ((card role a).switch ≡ (is_admin role && a.installed))
      × ((card role a).uninstall ≡ (is_admin role && a.installed))
unfolding card
card_lem role a = ground arith
