-- ===== src/Translations/Zh/Onboard.antt =====
-- The Chinese texts of the header and the wizard, lines 1095 to 1195 of frontend/src/i18n/translations.ts.
use lokinode.Translations.Table.{Table}
use mathlib.Core.List.{[], ◌∷◌}

unfoldable pub texts : Table
texts =
    ("header.help", "帮助")
    ∷ ("header.settings", "设置")
    ∷ ("header.minimize", "最小化")
    ∷ ("header.close", "关闭")
    ∷ ("header.update_available", "有可用更新：{{version}}")
    ∷ ("node.errors.restart_failed", "重启失败")
    ∷ ("node.errors.stop_failed", "停止失败")
    ∷ ("node.errors.start_timeout", "启动超时 — 请检查日志。")
    ∷ ("node.errors.lock_timeout_title", "锁定超时")
    ∷ ("node.errors.lock_timeout_desc", "守护进程未返回锁定状态。请检查日志或停止节点。")
    ∷ ("node.errors.another_instance", "另一个 Lokinode 窗口已打开，请先关闭它。")
    ∷ ("node.errors.port_conflict", "端口冲突 — 另一个进程正在使用相同的端口。")
    ∷ ("node.errors.rate_limited", "尝试过多 — 请稍候。")
    ∷ ("node.errors.daemon_not_ready", "守护进程未就绪。")
    ∷ ("language.label", "语言")
    ∷ ("onboard.back", "返回")
    ∷ ("onboard.cancel", "取消")
    ∷ ("onboard.next", "继续")
    ∷ ("onboard.step_x_of_y", "第 {{x}} 步 / 共 {{y}} 步")
    ∷ ("onboard.node.title", "为节点命名")
    ∷ ("onboard.node.desc", "给节点取个名字,并选择其环境位置。")
    ∷ ("onboard.node.alias", "节点别名")
    ∷ ("onboard.node.alias_ph", "我的 Lokinode")
    ∷ ("onboard.node.dir", "节点环境")
    ∷ ("onboard.node.advanced", "高级网络设置")
    ∷ ("onboard.wallet.title", "选择钱包")
    ∷ ("onboard.wallet.desc", "重新开始,或带上已有的钱包。")
    ∷ ("onboard.wallet.create", "创建新钱包")
    ∷ ("onboard.wallet.create_sub", "生成全新的 24 个单词恢复短语。")
    ∷ ("onboard.wallet.restore", "恢复已有钱包")
    ∷ ("onboard.wallet.restore_sub", "通过 24 个单词种子或 hex 私钥恢复。")
    ∷ ("onboard.password.title", "设置钱包密码")
    ∷ ("onboard.password.desc", "每次启动节点时都需要输入。")
    ∷ ("onboard.password.label", "密码")
    ∷ ("onboard.password.confirm", "确认密码")
    ∷ ("onboard.password.warn", "密码无法找回。请妥善保管。")
    ∷ ("onboard.restore.title", "恢复钱包")
    ∷ ("onboard.restore.desc", "粘贴恢复数据 — 绝不会发送到任何地方。")
    ∷ ("onboard.restore.mnemonic", "助记词")
    ∷ ("onboard.restore.hex", "私钥")
    ∷ ("onboard.restore.mnemonic_label", "您的 24 个单词恢复助记词")
    ∷ ("onboard.restore.hex_label", "您的私钥 (hex)")
    ∷ ("onboard.review.title", "准备启动")
    ∷ ("onboard.review.desc", "最后确认一下，然后开启电源。")
    ∷ ("onboard.review.sync_warn", "首次启动将与区块链同步。这可能需要一些时间，具体取决于您的网络连接。")
    ∷ ("onboard.review.alias", "别名")
    ∷ ("onboard.review.folder", "节点环境")
    ∷ ("onboard.review.wallet", "钱包")
    ∷ ("onboard.review.wallet_create", "新钱包")
    ∷ ("onboard.review.wallet_mnemonic", "从助记词恢复")
    ∷ ("onboard.review.wallet_hex", "从 hex 恢复")
    ∷ ("onboard.review.network", "网络")
    ∷ ("onboard.review.start", "启动节点")
    ∷ ("onboard.review.hint_create", "将启动守护进程、生成恢复短语并解锁钱包。")
    ∷ ("onboard.review.hint_restore", "将启动守护进程并恢复钱包 — 可能需要几分钟。")
    ∷ ("onboard.seed.title", "保存您的恢复短语")
    ∷ ("onboard.seed.desc", "这 24 个单词可以恢复钱包。任何拥有它们的人都拥有您的币。")
    ∷ ("onboard.seed.warn", "切勿截图或在线存储。请用纸记下并离线保管。")
    ∷ ("onboard.seed.ack", "我已按顺序写下全部 24 个单词。")
    ∷ ("onboard.launch.verifying", "正在验证配置…")
    ∷ ("onboard.launch.verifying_sub", "确保一切就绪。")
    ∷ ("onboard.launch.starting", "启动守护进程")
    ∷ ("onboard.launch.starting_sub", "正在启动 flnd。")
    ∷ ("onboard.launch.waiting", "启动中")
    ∷ ("onboard.launch.waiting_sub", "等待节点上线…")
    ∷ ("onboard.launch.reveal_title", "您的恢复短语")
    ∷ ("onboard.launch.reveal_desc", "现在就记录下来 — 仅此一次展示。")
    ∷ ("onboard.launch.continue_init", "创建钱包")
    ∷ ("onboard.launch.initializing", "正在创建钱包")
    ∷ ("onboard.launch.initializing_sub", "正在加密钱包并准备节点。")
    ∷ ("onboard.launch.done", "就绪")
    ∷ ("onboard.launch.error", "启动失败")
    ∷ ("onboard.launch.dismiss", "关闭")
    ∷ ("onboard.errors.pwd_min", "密码至少 8 个字符。")
    ∷ ("onboard.errors.pwd_match", "两次输入的密码不一致。")
    ∷ ("onboard.errors.mnemonic_len", "助记词必须恰好是 24 个单词。")
    ∷ ("onboard.errors.hex_required", "请输入 hex 密钥以恢复。")
    ∷ ("onboard.errors.wallet_exists", "在此环境下已存在钱包。请选择空环境或恢复到其中。")
    ∷ ("onboard.errors.seed_gen_failed", "无法生成恢复短语。请再试一次。")
    ∷ ("node.errors.missing_files", "节点数据文件丢失 — 目录可能已被移动或删除。")
    ∷ ("node.errors.corrupt_cert", "TLS 证书已损坏 — 可能需要重新创建节点。")
    ∷ ("node.errors.connection_refused", "无法连接到节点守护进程 — 请检查端口冲突。")
    ∷ ("node.errors.timeout", "节点守护进程启动超时。")
    ∷ ("node.errors.neutrino_corrupted", "Neutrino 标头已损坏 — 点击清除并重启。")
    ∷ ("node.errors.recover_failed", "恢复失败")
    ∷ ("node.status.no_wallet", "钱包缺失")
    ∷ ("node.status.sub.no_wallet", "未找到钱包数据库。请返回并重新创建此节点。")
    ∷ ("common.back_home", "返回主页")
    ∷ []
