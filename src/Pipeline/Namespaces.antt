-- ===== src/Pipeline/Namespaces.antt =====
-- The four namespaces of the cache of src/repositories/cache_repository.py.
use amazon_similar_search.Prelude.{
  ◌≡◌, refl, false, Text, starts_with, member, split_slash, eq_text,
}
use amazon_similar_search.Review.Judge.Texts.{eq_texts}
use amazon_similar_search.Cache.{
  same_path, product_attributes_cache, outscraper_raw_cache, outscraper_normalized_cache,
  outscraper_scored_cache,
}
use amazon_similar_search.Pipeline.Steps.{IsRelative, path_at}

pub outscraper_raw_cache-IsRelative : IsRelative outscraper_raw_cache
unfolding starts_with member split_slash eq_text
outscraper_raw_cache-IsRelative = refl

pub outscraper_normalized_cache-IsRelative : IsRelative outscraper_normalized_cache
unfolding starts_with member split_slash eq_text
outscraper_normalized_cache-IsRelative = refl

pub outscraper_scored_cache-IsRelative : IsRelative outscraper_scored_cache
unfolding starts_with member split_slash eq_text
outscraper_scored_cache-IsRelative = refl

-- The files of two namespaces are apart.
abbrev pub AreApart : Text → Text → Type 0
AreApart a b = (k l : Text) → same_path (path_at a k) (path_at b l) ≡ false

pub raw-product : AreApart outscraper_raw_cache product_attributes_cache
unfolding same_path eq_texts starts_with split_slash eq_text
raw-product k l = refl

pub normalized-product : AreApart outscraper_normalized_cache product_attributes_cache
unfolding same_path eq_texts starts_with split_slash eq_text
normalized-product k l = refl

pub scored-product : AreApart outscraper_scored_cache product_attributes_cache
unfolding same_path eq_texts starts_with split_slash eq_text
scored-product k l = refl

pub normalized-raw : AreApart outscraper_normalized_cache outscraper_raw_cache
unfolding same_path eq_texts starts_with split_slash eq_text
normalized-raw k l = refl

pub scored-raw : AreApart outscraper_scored_cache outscraper_raw_cache
unfolding same_path eq_texts starts_with split_slash eq_text
scored-raw k l = refl

pub scored-normalized : AreApart outscraper_scored_cache outscraper_normalized_cache
unfolding same_path eq_texts starts_with split_slash eq_text
scored-normalized k l = refl
