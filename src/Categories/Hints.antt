-- ===== src/Categories/Hints.antt =====
-- The tables of app/services/categories.py.
use bnb_agent_marketplace.Base.{Text, codes, List, [], ◌∷◌}

pub data Category : Type 0 where
  rebalancing : Category
  grid_trading : Category
  yield_optimisation : Category
  health_factor_monitoring : Category
  dev_automation : Category
  creative_design : Category
  marketing_content : Category
  data_analytics : Category
  security_compliance : Category
  admin_ops : Category
  other : Category

-- `CATEGORIES`, in the order that settles ties.
abbrev pub categories : List Category
categories =
    rebalancing ∷ grid_trading ∷ yield_optimisation ∷ health_factor_monitoring ∷ dev_automation
    ∷ creative_design ∷ marketing_content ∷ data_analytics ∷ security_compliance ∷ admin_ops ∷ other
    ∷ []

-- `_TERMIX_CATEGORY_MAP`
abbrev pub termix_category_map : List (Text × Category)
termix_category_map =
    (codes "Code & Smart Contracts", dev_automation)
    ∷ (codes "Data & Research", data_analytics)
    ∷ (codes "Writing & Content", marketing_content)
    ∷ (codes "Design & Brand", creative_design)
    ∷ (codes "Security & Verification", security_compliance)
    ∷ (codes "Market & Protocol Research", grid_trading)
    ∷ (codes "Automation & Ops", admin_ops)
    ∷ (codes "Model & Dataset Ops", data_analytics)
    ∷ []

-- `_TAG_HINTS`
abbrev pub tag_hints : Category → List Text
tag_hints rebalancing = codes "rebalanc" ∷ codes "portfolio management" ∷ []
tag_hints grid_trading =
    codes "grid"
    ∷ codes "arbitrage"
    ∷ codes "dca"
    ∷ codes "scalping"
    ∷ codes "backtest"
    ∷ codes "quant"
    ∷ codes "trading bot"
    ∷ codes "technical analysis"
    ∷ codes "alpha hunter"
    ∷ codes "smart money"
    ∷ codes "ai trading"
    ∷ []
tag_hints yield_optimisation =
    codes "yield"
    ∷ codes "defi"
    ∷ codes "farm"
    ∷ codes "staking"
    ∷ codes "vault"
    ∷ codes "lend"
    ∷ codes "liquidity"
    ∷ []
tag_hints health_factor_monitoring =
    codes "health factor" ∷ codes "liquidation" ∷ codes "collateral" ∷ codes "risk management" ∷ []
tag_hints dev_automation =
    codes "agent development"
    ∷ codes "automation"
    ∷ codes "orchestration"
    ∷ codes "api"
    ∷ codes "backend"
    ∷ codes "bot"
    ∷ codes "browser"
    ∷ codes "workflow"
    ∷ codes "software"
    ∷ codes "mobile"
    ∷ codes "web"
    ∷ codes "llm"
    ∷ codes "chatbot"
    ∷ codes "function calling"
    ∷ codes "multi-agent"
    ∷ codes "prompt engineering"
    ∷ codes "computer vision"
    ∷ codes "node"
    ∷ codes "rpc"
    ∷ []
tag_hints creative_design =
    codes "3d modeling"
    ∷ codes "image"
    ∷ codes "video"
    ∷ codes "graphic design"
    ∷ codes "illustration"
    ∷ codes "logo"
    ∷ codes "nft art"
    ∷ codes "animation"
    ∷ codes "ui/ux"
    ∷ codes "branding"
    ∷ codes "design system"
    ∷ []
tag_hints marketing_content =
    codes "ad campaign"
    ∷ codes "kol"
    ∷ codes "influencer"
    ∷ codes "seo"
    ∷ codes "social media"
    ∷ codes "email"
    ∷ codes "blog"
    ∷ codes "copywriting"
    ∷ codes "content"
    ∷ codes "translation"
    ∷ codes "pr"
    ∷ codes "growth"
    ∷ []
tag_hints data_analytics =
    codes "data analysis"
    ∷ codes "data labeling"
    ∷ codes "data engineering"
    ∷ codes "data entry"
    ∷ codes "data extraction"
    ∷ codes "data visualization"
    ∷ codes "web research"
    ∷ codes "market research"
    ∷ codes "business analysis"
    ∷ codes "sql"
    ∷ codes "embeddings"
    ∷ []
tag_hints security_compliance =
    codes "anti-phishing"
    ∷ codes "wallet security"
    ∷ codes "contract review"
    ∷ codes "smart contract audit"
    ∷ codes "security review"
    ∷ codes "bug bounty"
    ∷ codes "forensics"
    ∷ codes "compliance"
    ∷ codes "due diligence"
    ∷ codes "legal"
    ∷ []
tag_hints admin_ops =
    codes "bookkeeping"
    ∷ codes "customer support"
    ∷ codes "virtual assistant"
    ∷ codes "email management"
    ∷ codes "project management"
    ∷ codes "product management"
    ∷ codes "report writing"
    ∷ []
tag_hints _ = []

-- `_DESCRIPTION_HINTS`
abbrev pub description_hints : Category → List Text
description_hints rebalancing = codes "rebalanc" ∷ codes "portfolio management" ∷ []
description_hints grid_trading =
    codes "trading bot"
    ∷ codes "arbitrage"
    ∷ codes "grid trading"
    ∷ codes "dca bot"
    ∷ codes "scalping"
    ∷ codes "trading agent"
    ∷ codes "ai trading"
    ∷ codes "mev"
    ∷ codes "dex"
    ∷ codes "swap bot"
    ∷ codes "copy trading"
    ∷ []
description_hints yield_optimisation =
    codes "yield"
    ∷ codes "staking"
    ∷ codes "liquidity farming"
    ∷ codes "defi vault"
    ∷ codes "liquidity pool"
    ∷ []
description_hints health_factor_monitoring =
    codes "liquidation" ∷ codes "health factor" ∷ codes "collateral monitoring" ∷ []
description_hints dev_automation =
    codes "deploy"
    ∷ codes "website"
    ∷ codes "web app"
    ∷ codes "code"
    ∷ codes "developer"
    ∷ codes "workflow"
    ∷ codes "pipeline"
    ∷ codes "automation system"
    ∷ codes "api integration"
    ∷ codes "smart contract development"
    ∷ []
description_hints creative_design =
    codes "design"
    ∷ codes "creative"
    ∷ codes "branding"
    ∷ codes "image generation"
    ∷ codes "logo"
    ∷ codes "graphic"
    ∷ []
description_hints marketing_content =
    codes "marketing"
    ∷ codes "content"
    ∷ codes "social media"
    ∷ codes "seo"
    ∷ codes "blog"
    ∷ codes "copywriting"
    ∷ codes "campaign"
    ∷ []
description_hints data_analytics =
    codes "data analytics"
    ∷ codes "data analysis"
    ∷ codes "research"
    ∷ codes "insights"
    ∷ codes "dashboard"
    ∷ codes "market research"
    ∷ codes "reporting"
    ∷ []
description_hints security_compliance =
    codes "security audit"
    ∷ codes "smart contract audit"
    ∷ codes "compliance"
    ∷ codes "vulnerability"
    ∷ codes "penetration"
    ∷ codes "verification"
    ∷ []
description_hints admin_ops =
    codes "admin"
    ∷ codes "operations"
    ∷ codes "scheduling"
    ∷ codes "task management"
    ∷ codes "community management"
    ∷ []
description_hints _ = []

-- `_SKILL_HINTS`
abbrev pub skill_hints : List (Category × List Text)
skill_hints =
    (grid_trading, codes "grid" ∷ codes "range" ∷ codes "dca" ∷ [])
    ∷ (
      yield_optimisation,
      codes "yield" ∷ codes "farm" ∷ codes "staking" ∷ codes "vault" ∷ codes "lend" ∷ [],
    )
    ∷ (health_factor_monitoring, codes "health" ∷ codes "liquidation" ∷ codes "collateral" ∷ [])
    ∷ []

-- `_PROTOCOL_HINTS`
abbrev pub protocol_hints : List (Category × List Text)
protocol_hints =
    (yield_optimisation, codes "pancakeswap" ∷ codes "venus" ∷ codes "beefy" ∷ codes "aave" ∷ [])
    ∷ (grid_trading, codes "ascendex" ∷ codes "binance_grid" ∷ [])
    ∷ []
