-- ===== src/Domain/Examples.antt =====
-- The theorems on networks, applied to Gnosis.
use balances_watcher.Base.{◌≡◌, ok}
use balances_watcher.Domain.Network.{gnosis, from_str, fmt}
use balances_watcher.Domain.Network.Ids.{from_str-fmt}

from_str-fmt_example : from_str (fmt gnosis) ≡ ok gnosis
from_str-fmt_example = from_str-fmt gnosis
